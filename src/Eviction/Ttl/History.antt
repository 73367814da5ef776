-- ===== src/Eviction/Ttl/History.antt =====
-- internal/eviction/ttl.go: the policy against the expiry times that it was told, and its laws.
use distributed_caching.Prelude.{
  ℕ, ◌≡◌, ◌<◌, ◌≤◌, refl, none, some, List, [], ◌∷◌, Str, Time, arith, str_key,
}
use distributed_caching.Prelude.Dict.{has, lookup}
use distributed_caching.Policy.{Laws}
use distributed_caching.Cache.{InMemoryCache, new}
use distributed_caching.Cache.Valid
use distributed_caching.Eviction.Heap.Order.{Strict}
use distributed_caching.Eviction.Indexed.{new_indexed}
use distributed_caching.Eviction.Indexed.Shape.{Shape, new_indexed-Shape}
use distributed_caching.Eviction.Indexed.Known.{
  Table, enter, forget, Knows, new_indexed-Knows, insert_entry-Knows, drop_entry-Knows,
  first_key-Knows,
}
use distributed_caching.Eviction.Indexed.Tracking.{
  has-insert_entry, has-drop_entry, insert_entry-valid, drop_entry-valid, first_key-tracked,
  first_key-untracked,
}
use distributed_caching.Eviction.Ttl.{
  TtlOnly, ttl_less, new_ttl_only, on_access, on_insert, on_evict, evict, ttl_policy,
}

pub ttl_less-Strict : Strict ttl_less
ttl_less-Strict = record { asym = λ x y h. ground arith; trans = λ x y z h k. ground arith }

-- The calls of a cache.
pub data Event : Type 0 where
  access_event : Str → Event
  insert_event : Str → Time → Event
  evict_event : Str → Event

abbrev pub apply : TtlOnly → Event → TtlOnly
apply t (access_event k) = on_access k t
apply t (insert_event k expires_at) = on_insert k expires_at t
apply t (evict_event k) = on_evict k t

unfoldable pub run : TtlOnly → List Event → TtlOnly
run t [] = t
run t (e ∷ es) = run (apply t e) es

-- The expiry time with which each key was inserted that has not been evicted since.
abbrev pub note : Table Time → Event → Table Time
note m (access_event k) = m
note m (insert_event k expires_at) = enter k expires_at m
note m (evict_event k) = forget k m

unfoldable pub expiries : Table Time → List Event → Table Time
expiries m [] = m
expiries m (e ∷ es) = expiries (note m e) es

-- A key is inserted only while it is not tracked.
abbrev pub IsNew : Table Time → Event → Type 0
IsNew m (insert_event k expires_at) = m k ≡ none
IsNew m _ = Unit

unfoldable pub IsLegal : Table Time → List Event → Type 0
IsLegal m [] = Unit
IsLegal m (e ∷ es) = IsNew m e × IsLegal (note m e) es

apply-Knows :
    (t : TtlOnly) (m : Table Time) (e : Event)
    → IsNew m e
    → Knows ttl_less t m
    → Knows ttl_less (apply t e) (note m e)
unfolding on_access on_insert on_evict
apply-Knows t m (access_event k) h w = w
apply-Knows t m (insert_event k x) h w = insert_entry-Knows ttl_less ttl_less-Strict t m w k x h
apply-Knows t m (evict_event k) h w = drop_entry-Knows ttl_less ttl_less-Strict t m w k

run-Knows :
    (t : TtlOnly) (m : Table Time) (es : List Event)
    → IsLegal m es
    → Knows ttl_less t m
    → Knows ttl_less (run t es) (expiries m es)
unfolding run expiries IsLegal
run-Knows t m [] h w = w
run-Knows t m (e ∷ es) h w = run-Knows (apply t e) (note m e) es h.1 (apply-Knows t m e h.0 w)

-- After any legal sequence of calls on a new TTL-only policy, a key that `Evict` answers with is
-- tracked, and no tracked key was inserted with an earlier expiry time.
pub evict-run_earliest :
    (es : List Event) {k : Str}
    → IsLegal (λ j. none) es
    → evict (run new_ttl_only es) ≡ some k
    → (x : Time) × (expiries (λ j. none) es k ≡ some x)
      × ((j : Str) (y : Time) → expiries (λ j. none) es j ≡ some y → x ≤ y)
unfolding evict new_ttl_only
evict-run_earliest es h e =
    let w = run-Knows new_ttl_only (λ j. none) es h (new_indexed-Knows ttl_less 0) in
    let (x, here, least) = first_key-Knows ttl_less ttl_less-Strict _ _ w e in
    (x, here, λ j y q. ground (arith, least j y q))

-- What the comments of the interface promise holds of this policy.
pub ttl_laws : Laws ttl_policy
unfolding ttl_policy on_access on_insert on_evict evict
ttl_laws = record {
  IsValid = Shape ttl_less;
  tracks = λ t j. has j t.entries;
  on_access-IsValid = λ now k t v. v;
  on_insert-IsValid =
      λ now k e t absent v. insert_entry-valid ttl_less ttl_less-Strict e k t absent v;
  on_evict-IsValid = λ k t v. drop_entry-valid ttl_less ttl_less-Strict k t v;
  evict-IsValid = λ t v. v;
  tracks-on_access = λ now k j t v. refl;
  tracks-on_insert = λ now k j e t absent v. has-insert_entry ttl_less e k j t;
  tracks-on_evict = λ k j t v. has-drop_entry ttl_less k j t;
  tracks-evict = λ j t v. refl;
  evict-some = λ t v e. first_key-tracked ttl_less ttl_less-Strict t v e;
  evict-none = λ t v e j. first_key-untracked ttl_less ttl_less-Strict t v e j;
}

-- A cache over a new TTL-only policy.
unfoldable pub ttl_cache : ℕ → InMemoryCache ttl_policy
unfolding ttl_policy
ttl_cache capacity = new capacity new_ttl_only

pub ttl_cache-IsValid : (capacity : ℕ) → 0 < capacity → Valid.IsValid ttl_laws (ttl_cache capacity)
unfolding ttl_cache ttl_policy ttl_laws new_ttl_only new_indexed lookup
ttl_cache-IsValid capacity h =
    Valid.new-IsValid ttl_laws capacity new_ttl_only h (new_indexed-Shape ttl_less 0) (λ j. refl)
