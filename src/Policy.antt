-- ===== src/Policy.antt =====
-- internal/shared/eviction.go: the interface between the cache and its eviction policy, and the
-- laws by which the cache relies on it. `Eviction` holds the policies that fill it.
use distributed_caching.Prelude.{
  ◌≡◌, Bool, true, false, Option, none, some, ite, Str, str_key, Time,
}

-- The methods, with the receiver's state passed on. `on_access` and `on_insert` also take the
-- reading of the clock that a policy may make; `evict` returns the state too, since a policy may
-- draw from a random source.
pub record EvictionPolicy : Type 1 where
  pub State : Type 0
  pub on_access : Time → Str → State → State
  pub on_insert : Time → Str → Time → State → State
  pub on_evict : Str → State → State
  pub evict : State → Option Str × State
  pub name : Str

-- What the comments of the interface promise: a policy tracks the keys that were inserted and not
-- yet evicted, and selects one of them whenever there is one.
pub record Laws (p : EvictionPolicy) : Type 1 where
  pub IsValid : p.State → Type 0
  pub tracks : p.State → Str → Bool
  pub on_access-IsValid :
      (t : Time) (k : Str) (s : p.State) → IsValid s → IsValid (p.on_access t k s)
  pub on_insert-IsValid :
      (t : Time) (k : Str) (e : Time) (s : p.State)
      → tracks s k ≡ false
      → IsValid s
      → IsValid (p.on_insert t k e s)
  pub on_evict-IsValid : (k : Str) (s : p.State) → IsValid s → IsValid (p.on_evict k s)
  pub evict-IsValid : (s : p.State) → IsValid s → IsValid (p.evict s).1
  pub tracks-on_access :
      (t : Time) (k j : Str) (s : p.State) → IsValid s → tracks (p.on_access t k s) j ≡ tracks s j
  pub tracks-on_insert :
      (t : Time) (k j : Str) (e : Time) (s : p.State)
      → tracks s k ≡ false
      → IsValid s
      → tracks (p.on_insert t k e s) j ≡ ite (str_key.dec k j) true (tracks s j)
  pub tracks-on_evict :
      (k j : Str) (s : p.State)
      → IsValid s
      → tracks (p.on_evict k s) j ≡ ite (str_key.dec k j) false (tracks s j)
  pub tracks-evict : (j : Str) (s : p.State) → IsValid s → tracks (p.evict s).1 j ≡ tracks s j
  pub evict-some : (s : p.State) {k : Str} → IsValid s → (p.evict s).0 ≡ some k → tracks s k ≡ true
  pub evict-none : (s : p.State) → IsValid s → (p.evict s).0 ≡ none → (j : Str) → tracks s j ≡ false
