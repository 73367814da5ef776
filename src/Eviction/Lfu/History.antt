-- ===== src/Eviction/Lfu/History.antt =====
-- internal/eviction/lfu.go: the policy against the uses that it was told, and its laws.
use distributed_caching.Prelude.{
  ℕ, ◌+◌, ◌%◌, ◌^◌, ◌<◌, ◌≤◌, ◌≡◌, ◌⊎◌, inl, inr, ap, ◌∙◌, Option, Option-cases, length, refl,
  false, none, some, List, [], ◌∷◌, Str, Time, arith, str_key,
}
use distributed_caching.Prelude.Dict.{has, lookup}
use distributed_caching.Policy.{Laws}
use distributed_caching.Cache.{InMemoryCache, new}
use distributed_caching.Cache.Valid
use distributed_caching.Eviction.Heap.Order.{Strict}
use distributed_caching.Eviction.Indexed.{new_indexed}
use distributed_caching.Eviction.Indexed.Shape.{Shape, new_indexed-Shape}
use distributed_caching.Eviction.Indexed.Known.{
  Table, enter, forget, change, changed, Knows, new_indexed-Knows, insert_entry-Knows,
  drop_entry-Knows, touch_entry-Knows, first_key-Knows,
}
use distributed_caching.Eviction.Indexed.Tracking.{
  has-touch_entry, has-insert_entry, has-drop_entry, touch_entry-valid, insert_entry-valid,
  drop_entry-valid, first_key-tracked, first_key-untracked,
}
use distributed_caching.Eviction.Lfu.{
  Usage, Lfu, lfu_less, use_again, new_lfu, on_access, on_insert, on_evict, evict, lfu_policy,
}

pub lfu_less-Strict : Strict lfu_less
unfolding lfu_less
lfu_less-Strict = record { asym = λ x y h. ground arith; trans = λ x y z h k. ground arith }

-- The calls of a cache, with the times of the policy's clock.
pub data Event : Type 0 where
  access_event : Time → Str → Event
  insert_event : Time → Str → Event
  evict_event : Str → Event

abbrev pub apply : Lfu → Event → Lfu
apply l (access_event now k) = on_access now k l
apply l (insert_event now k) = on_insert now k l
apply l (evict_event k) = on_evict k l

unfoldable pub run : Lfu → List Event → Lfu
run l [] = l
run l (e ∷ es) = run (apply l e) es

-- How often a key was used since its insertion, which counts as a use, and when it was last.
pub record Uses : Type 0 where
  pub times : ℕ
  pub last : Time

abbrev pub use_once : Time → Uses → Uses
use_once now u = record { times = u.times + 1; last = now }

-- The uses of each key that has not been evicted since its insertion.
abbrev pub note : Table Uses → Event → Table Uses
note m (access_event now k) = change k (use_once now) m
note m (insert_event now k) = enter k (record { times = 1; last = now }) m
note m (evict_event k) = forget k m

unfoldable pub uses : Table Uses → List Event → Table Uses
uses m [] = m
uses m (e ∷ es) = uses (note m e) es

-- A key is inserted only while it is not tracked.
abbrev pub IsNew : Table Uses → Event → Type 0
IsNew m (insert_event now k) = m k ≡ none
IsNew m _ = Unit

unfoldable pub IsLegal : Table Uses → List Event → Type 0
IsLegal m [] = Unit
IsLegal m (e ∷ es) = IsNew m e × IsLegal (note m e) es

-- What the entry of a key holds, whose counter is an int64.
abbrev usage : Uses → Usage
usage u = record { freq = (u.times + 2 ^ 63) % 2 ^ 64; accessed_at = u.last }

abbrev usage_of : Option Uses → Option Usage
usage_of none = none
usage_of (some u) = some (usage u)

usage-use_once : (now : Time) (u : Uses) → use_again now (usage u) ≡ usage (use_once now u)
usage-use_once now u = ap (λ n. record { freq = n; accessed_at = now }) (omega arith)

usage_of-use_once :
    (now : Time) (x : Option Uses)
    → changed (use_again now) (usage_of x) ≡ usage_of (changed (use_once now) x)
usage_of-use_once now none = refl
usage_of-use_once now (some u) = ap some (usage-use_once now u)

Knows-ext :
    (l : Lfu) (m m' : Table Usage)
    → ((k : Str) → m k ≡ m' k)
    → Knows lfu_less l m
    → Knows lfu_less l m'
Knows-ext l m m' e w = (w.0, λ k. w.1 k ∙ e k)

-- The policy knows the uses of each key.
abbrev Counts : Lfu → Table Uses → Type 0
Counts l m = Knows lfu_less l (λ k. usage_of (m k))

apply-Counts :
    (l : Lfu) (m : Table Uses) (e : Event) → IsNew m e → Counts l m → Counts (apply l e) (note m e)
unfolding on_access on_insert on_evict
apply-Counts l m (access_event now k) h w =
    Knows-ext _ _ _ (λ j. ground (arith, usage_of-use_once now (m j)))
      (touch_entry-Knows lfu_less lfu_less-Strict l _ w (use_again now) k)
apply-Counts l m (insert_event now k) h w =
    Knows-ext _ _ _ (λ j. ground arith)
      (insert_entry-Knows lfu_less lfu_less-Strict l _ w k _ (ground (arith, h)))
apply-Counts l m (evict_event k) h w =
    Knows-ext _ _ _ (λ j. ground arith) (drop_entry-Knows lfu_less lfu_less-Strict l _ w k)

run-Counts :
    (l : Lfu) (m : Table Uses) (es : List Event)
    → IsLegal m es
    → Counts l m
    → Counts (run l es) (uses m es)
unfolding run uses IsLegal
run-Counts l m [] h w = w
run-Counts l m (e ∷ es) h w = run-Counts (apply l e) (note m e) es h.1 (apply-Counts l m e h.0 w)

-- No key was used more often than there were calls.
abbrev UsedAtMost : ℕ → Table Uses → Type 0
UsedAtMost n m = (k : Str) (u : Uses) → m k ≡ some u → u.times ≤ n

note-UsedAtMost :
    (n : ℕ) (m : Table Uses) (e : Event) → UsedAtMost n m → UsedAtMost (n + 1) (note m e)
note-UsedAtMost n m (access_event now key) h k u e = elim (Option-cases (m k)) [
  | inl g ↦ ground (arith, g, e)
  | inr (x, g) ↦ ground (arith, g, e, h k x g)
]
note-UsedAtMost n m (insert_event now key) h k u e = ground (arith, e, h k u)
note-UsedAtMost n m (evict_event key) h k u e = ground (arith, e, h k u)

uses-UsedAtMost :
    (n : ℕ) (m : Table Uses) (es : List Event)
    → UsedAtMost n m
    → UsedAtMost (n + length es) (uses m es)
unfolding uses
uses-UsedAtMost n m [] h = λ k u e. omega (arith, h k u e)
uses-UsedAtMost n m (e ∷ es) h =
    let rest = uses-UsedAtMost (n + 1) (note m e) es (note-UsedAtMost n m e h) in
    λ k u g. omega (arith, rest k u g)

-- What the order of the heap says of two keys that were used fewer than 2^63 times.
lfu_less-usage :
    (x y : Uses)
    → x.times < 2 ^ 63
    → y.times < 2 ^ 63
    → lfu_less (usage y) (usage x) ≡ false
    → (x.times < y.times) ⊎ ((x.times ≡ y.times) × x.last ≤ y.last)
unfolding lfu_less
lfu_less-usage x y a b h = ground arith

-- After any legal sequence of fewer than 2^63 calls on a new LFU policy, a key that `Evict` answers
-- with is tracked, and every tracked key was used more often than it, or as often with a last use
-- that was no earlier. The uses of a key are its insertion and the accesses since then.
pub evict-run_least_used :
    (es : List Event) {k : Str}
    → length es < 2 ^ 63
    → IsLegal (λ j. none) es
    → evict (run new_lfu es) ≡ some k
    → (u : Uses) × (uses (λ j. none) es k ≡ some u)
      × ((j : Str) (v : Uses)
          → uses (λ j. none) es j ≡ some v
          → (u.times < v.times) ⊎ ((u.times ≡ v.times) × u.last ≤ v.last))
unfolding evict new_lfu
evict-run_least_used es {k} lt h e =
    let bound = uses-UsedAtMost 0 (λ j. none) es (λ j u g. absurd (ground (arith, g))) in
    let (u, at_k, least) =
      first_key-Knows lfu_less lfu_less-Strict _ _
        (run-Counts new_lfu (λ j. none) es h (new_indexed-Knows lfu_less _)) e in
    elim (Option-cases (uses (λ j. none) es k)) [
      | inl g ↦ absurd (ground (arith, at_k, g))
      | inr (x, g) ↦ (
        x,
        g,
        λ j y f.
            lfu_less-usage x y (omega (arith, bound k x g)) (omega (arith, bound j y f))
              (ground (arith, least j (usage y) (ap usage_of f), at_k, ap usage_of g)),
      )
    ]

-- What the comments of the interface promise holds of this policy.
pub lfu_laws : Laws lfu_policy
unfolding lfu_policy on_access on_insert on_evict evict
lfu_laws = record {
  IsValid = Shape lfu_less;
  tracks = λ l j. has j l.entries;
  on_access-IsValid = λ now k l v. touch_entry-valid lfu_less lfu_less-Strict (use_again now) k l v;
  on_insert-IsValid =
      λ now k e l absent v. insert_entry-valid lfu_less lfu_less-Strict _ k l absent v;
  on_evict-IsValid = λ k l v. drop_entry-valid lfu_less lfu_less-Strict k l v;
  evict-IsValid = λ l v. v;
  tracks-on_access = λ now k j l v. has-touch_entry lfu_less (use_again now) k j l;
  tracks-on_insert = λ now k j e l absent v. has-insert_entry lfu_less _ k j l;
  tracks-on_evict = λ k j l v. has-drop_entry lfu_less k j l;
  tracks-evict = λ j l v. refl;
  evict-some = λ l v e. first_key-tracked lfu_less lfu_less-Strict l v e;
  evict-none = λ l v e j. first_key-untracked lfu_less lfu_less-Strict l v e j;
}

-- A cache over a new LFU policy.
unfoldable pub lfu_cache : ℕ → InMemoryCache lfu_policy
unfolding lfu_policy
lfu_cache capacity = new capacity new_lfu

pub lfu_cache-IsValid : (capacity : ℕ) → 0 < capacity → Valid.IsValid lfu_laws (lfu_cache capacity)
unfolding lfu_cache lfu_policy lfu_laws new_lfu new_indexed lookup
lfu_cache-IsValid capacity h =
    Valid.new-IsValid lfu_laws capacity new_lfu h (new_indexed-Shape lfu_less _) (λ j. refl)
