-- ===== src/Cache/Reads.antt =====
-- internal/cache: what a read returns, against an ideal store that is unbounded and forgets
-- nothing: it keeps for each key the value and the expiry time of the last accepted `Set` that no
-- `Delete` has followed.
use distributed_caching.Prelude.{
  ◌≡◌, refl, Bool, false, List, [], ◌∷◌, Option, none, some, ◌⊎◌, inl, inr, ite, ltb, leb, arith,
  length, Str, inc64, Time, Duration, int64, past, str_key, Option-cases, Bool-cases, ◌&&◌, ◌≢◌,
  ◌∙◌, ap, seconds, if◌then◌else◌,
}
use distributed_caching.Prelude.Dict.{lookup, insert, lookup-insert, lookup-delete}
use distributed_caching.Policy.{EvictionPolicy, Laws}
use distributed_caching.Cache.{
  CacheEntry, InMemoryCache, is_expired, expiry, expire, touch, get, drop_victim, make_room,
  update_entry, insert_entry, store, set, remove,
}
use distributed_caching.Cache.Valid.{
  IsValid, make_room-Room, get-IsValid, set-IsValid, remove-IsValid,
}

pub record Item : Type 0 where
  pub value : Str
  pub expires_at : Time

abbrev pub Ideal : Type 0
Ideal = Str → Option Item

abbrev pub item : CacheEntry → Item
item e = record { value = e.value; expires_at = e.expires_at }

-- The calls of the cache's users, with the clock readings that they make.
pub data Call : Type 0 where
  get_call : (key : Str) (checked now : Time) → Call
  set_call : (key value : Str) (ttl : Duration) (now : Time) → Call
  remove_call : (key : Str) → Call

-- `Set` accepts the durations from 0 to 86400 seconds.
abbrev pub accepts : Duration → Bool
accepts ttl = leb (int64 0) ttl && leb ttl (seconds 86400)

abbrev pub ideal_step : Ideal → Call → Ideal
ideal_step i (get_call key checked now) = i
ideal_step i (set_call key value ttl now) = λ j.
    if accepts ttl
    then ite (str_key.dec key j) (some (record { value = value; expires_at = expiry now ttl }))
        (i j)
    else i j
ideal_step i (remove_call key) = λ j. ite (str_key.dec key j) none (i j)

-- The ideal store after a list of calls.
unfoldable pub ideal_run : Ideal → List Call → Ideal
ideal_run i [] = i
ideal_run i (x ∷ xs) = ideal_run (ideal_step i x) xs

abbrev pub item_of : Option CacheEntry → Option Item
item_of none = none
item_of (some e) = some (item e)

-- What the first store holds, the second holds too.
abbrev pub Refines : Ideal → Ideal → Type 0
Refines v i = (j : Str) → (v j ≡ none) ⊎ (v j ≡ i j)

Refines-trans : (u v i : Ideal) → Refines u v → Refines v i → Refines u i
Refines-trans u v i h k j = ground (arith, h j, k j)

module _ {p : EvictionPolicy} where
  unfoldable pub step : InMemoryCache p → Call → InMemoryCache p
  step c (get_call key checked now) = (get c key checked now).0
  step c (set_call key value ttl now) = (set c key value ttl now).0
  step c (remove_call key) = remove c key

  unfoldable pub run : InMemoryCache p → List Call → InMemoryCache p
  run c [] = c
  run c (x ∷ xs) = run (step c x) xs

  -- What the map holds for a key.
  abbrev pub view : InMemoryCache p → Ideal
  view c j = item_of (lookup j c.entries)

  expire-Refines :
      (c : InMemoryCache p) (k : Str) (t : Time) → Refines (view (expire c k t)) (view c)
  unfolding expire
  expire-Refines c k t j = ground (arith, lookup-delete k j c.entries)

  view-touch :
      (c : InMemoryCache p) (k : Str) (e e' : CacheEntry) (j : Str)
      → lookup k c.entries ≡ some e
      → item e' ≡ item e
      → item_of (lookup j (insert k e' c.entries)) ≡ view c j
  view-touch c k e e' j h same = ground (arith, lookup-insert k j e' c.entries)

  get-Refines :
      (c : InMemoryCache p) (k : Str) (checked now : Time)
      → Refines (view (get c k checked now).0) (view c)
  unfolding get touch
  get-Refines c k checked now j = elim (Option-cases (lookup k c.entries)) [
    | inl miss ↦ rw (miss, get) (inr refl)
    | inr (x, found) ↦ elim (Bool-cases (is_expired x checked)) [
      | inl old ↦ rw (found, get, old) (expire-Refines c k now j)
      | inr live ↦ rw (found, get, live) (inr (view-touch c k x _ j found refl))
    ]
  ]

  -- A hit returns what the map holds, and only before its expiry time has passed.
  get-hit :
      (c : InMemoryCache p) (k : Str) (checked now : Time) {v : Str}
      → (get c k checked now).1 ≡ some v
      → (x : Item) × (view c k ≡ some x) × (x.value ≡ v) × (past x.expires_at checked ≡ false)
  unfolding get is_expired
  get-hit c k checked now h = elim (Option-cases (lookup k c.entries)) [
    | inl e ↦ absurd (ground arith)
    | inr (x, e) ↦ (item x, ground arith, ground arith, ground arith)
  ]

  view-remove :
      (c : InMemoryCache p) (k j : Str)
      → view (remove c k) j ≡ ite (str_key.dec k j) none (view c j)
  unfolding remove
  view-remove c k j = ground (arith, lookup-delete k j c.entries)

  step-capacity : (c : InMemoryCache p) (call : Call) → (step c call).capacity ≡ c.capacity
  unfolding step get expire touch set store insert_entry update_entry make_room drop_victim remove
  step-capacity c (get_call k checked now) = ground arith
  step-capacity c (set_call k value ttl now) = ground arith
  step-capacity c (remove_call k) = ground arith

  pub run-capacity : (c : InMemoryCache p) (xs : List Call) → (run c xs).capacity ≡ c.capacity
  unfolding run
  run-capacity c [] = refl
  run-capacity c (x ∷ xs) = run-capacity (step c x) xs ∙ step-capacity c x

module _ {p : EvictionPolicy} (l : Laws p) where
  make_room-Refines : (c : InMemoryCache p) → IsValid l c → Refines (view (make_room c)) (view c)
  make_room-Refines c v j = elim (make_room-Room l c v) [
    | inl (_, e) ↦ rw e (inr refl)
    | inr (k, _, _, _, e) ↦ rw e (ground (arith, lookup-delete k j c.entries))
  ]

  -- `Set` stores the item under its key; every other key keeps its item, but for the one that
  -- is dropped to make room.
  view-store :
      (c : InMemoryCache p) (k value : Str) (x now locked : Time) (j : Str)
      → IsValid l c
      → view (store c k value x now locked) j
        ≡ ite
            (str_key.dec k j)
            (some (record { value = value; expires_at = x }))
            (elim (lookup k c.entries) [ none ↦ view (make_room c) j | some _ ↦ view c j ])
  unfolding store insert_entry update_entry
  view-store c k value x now locked j v = elim (Option-cases (lookup k c.entries)) [
    | inl e ↦
        rw (e, store)
          (ground (
            arith,
            lookup-insert k j
                (record {
                  key = k;
                  value = value;
                  expires_at = x;
                  created_at = now;
                  accessed_at = now;
                  access_count = int64 1;
                })
                (make_room c).entries,
          ))
    | inr (y, e) ↦
        rw (e, store)
          (ground (
            arith,
            lookup-insert k j
                (record y {
                  value = value;
                  expires_at = x;
                  accessed_at = now;
                  access_count = inc64 y.access_count;
                })
                c.entries,
          ))
  ]

  store-Refines :
      (c : InMemoryCache p) (k value : Str) (x now locked : Time) (i : Ideal)
      → IsValid l c
      → Refines (view c) i
      → Refines
          (view (store c k value x now locked))
          (λ j. ite (str_key.dec k j) (some (record { value = value; expires_at = x })) (i j))
  store-Refines c k value x now locked i v r j =
      ground (arith, view-store c k value x now locked j v, make_room-Refines c v j, r j)

  step-Refines :
      (c : InMemoryCache p) (i : Ideal) (call : Call)
      → IsValid l c
      → Refines (view c) i
      → Refines (view (step c call)) (ideal_step i call)
  unfolding step set
  step-Refines c i (get_call k checked now) v r j =
      Refines-trans _ _ i (get-Refines c k checked now) r j
  step-Refines c i (set_call k value ttl now) v r j =
      ground (arith, store-Refines c k value (expiry now ttl) now now i v r j, r j)
  step-Refines c i (remove_call k) v r j = ground (arith, view-remove c k j, r j)

  step-IsValid : (c : InMemoryCache p) (call : Call) → IsValid l c → IsValid l (step c call)
  unfolding step
  step-IsValid c (get_call k checked now) v = get-IsValid l c k checked now v
  step-IsValid c (set_call k value ttl now) v = set-IsValid l c k value ttl now v
  step-IsValid c (remove_call k) v = remove-IsValid l c k v

  -- Over a policy that obeys the laws, every run of calls on a valid cache leaves it valid:
  -- within its capacity, and with the policy tracking exactly the cached keys.
  pub run-IsValid : (c : InMemoryCache p) (xs : List Call) → IsValid l c → IsValid l (run c xs)
  unfolding run
  run-IsValid c [] v = v
  run-IsValid c (x ∷ xs) v = run-IsValid (step c x) xs (step-IsValid c x v)

  run-Refines :
      (c : InMemoryCache p) (i : Ideal) (xs : List Call)
      → IsValid l c
      → Refines (view c) i
      → Refines (view (run c xs)) (ideal_run i xs)
  unfolding run ideal_run
  run-Refines c i [] v r = r
  run-Refines c i (x ∷ xs) v r =
      run-Refines (step c x) (ideal_step i x) xs (step-IsValid c x v) (step-Refines c i x v r)

  -- Over a policy that obeys the laws, whatever calls a valid cache that starts empty has served:
  -- a `Get` that hits returns the value of the last accepted `Set` of that key that no `Delete`
  -- has followed, and the expiry time of that `Set` has not passed at the moment of the test.
  pub get-run :
      (c : InMemoryCache p) (xs : List Call) (k : Str) (checked now : Time) {v : Str}
      → IsValid l c
      → c.entries ≡ []
      → (get (run c xs) k checked now).1 ≡ some v
      → (x : Item) × (ideal_run (λ _. none) xs k ≡ some x)
        × (x.value ≡ v)
        × (past x.expires_at checked ≡ false)
  unfolding lookup
  get-run c xs k checked now w empty h =
      let (x, held, same, live) = get-hit (run c xs) k checked now h in
      let r = run-Refines c (λ _. none) xs w (λ j. inl (rw empty)) k in
      (x, ground arith, same, live)

  -- On a valid cache, after an accepted `Set`, a `Get` of that key for which the expiry time has
  -- not passed hits and returns the value.
  pub get-set :
      (c : InMemoryCache p) (k value : Str) (ttl : Duration) (now checked later : Time)
      → IsValid l c
      → (set c k value ttl now).1 ≡ none
      → past (expiry now ttl) checked ≡ false
      → (get (set c k value ttl now).0 k checked later).1 ≡ some value
  unfolding get set is_expired
  get-set c k value ttl now checked later v ok live =
      ground (arith, view-store c k value (expiry now ttl) now now k v)

  -- The exception: the key that is dropped for a new key, in a full cache.
  abbrev pub IsVictim : InMemoryCache p → Str → Str → Type 0
  IsVictim c k j =
      (lookup k c.entries ≡ none)
      × (length c.entries ≡ c.capacity)
      × ((p.evict c.policy).0 ≡ some j)

  view-make_room :
      (c : InMemoryCache p) (k j : Str)
      → IsValid l c
      → lookup k c.entries ≡ none
      → (view (make_room c) j ≡ view c j) ⊎ ((view (make_room c) j ≡ none) × IsVictim c k j)
  view-make_room c k j v absent = elim (make_room-Room l c v) [
    | inl (_, e) ↦ rw e (inl refl)
    | inr (i, full, chosen, _, e) ↦ rw e (elim (str_key.dec i j) [
      | yes q ↦
          inr (ground (arith, lookup-delete i j c.entries), (absent, full, chosen ∙ ap some q))
      | no q ↦ inl (ground (arith, lookup-delete i j c.entries))
    ])
  ]

  store-other :
      (c : InMemoryCache p) (k value : Str) (x now locked : Time) (j : Str)
      → IsValid l c
      → k ≢ j
      → (view (store c k value x now locked) j ≡ view c j)
        ⊎ ((view (store c k value x now locked) j ≡ none) × IsVictim c k j)
  store-other c k value x now locked j v other = elim (Option-cases (lookup k c.entries)) [
    | inl e ↦
        let kept : view (store c k value x now locked) j ≡ view (make_room c) j =
          ground (arith, view-store c k value x now locked j v) in
        rw kept (view-make_room c k j v e)
    | inr (y, e) ↦ inl (ground (arith, view-store c k value x now locked j v))
  ]

  -- On a valid cache, a `Set` of one key leaves what is stored under any other key alone, or
  -- drops it; it drops only the key that the policy selects, and only if the key of the `Set` is
  -- new and the cache is full.
  pub set-other :
      (c : InMemoryCache p) (k value : Str) (ttl : Duration) (now : Time) (j : Str)
      → IsValid l c
      → k ≢ j
      → (view (set c k value ttl now).0 j ≡ view c j)
        ⊎ ((view (set c k value ttl now).0 j ≡ none) × IsVictim c k j)
  unfolding set
  set-other c k value ttl now j v other = elim (Bool-cases (ltb ttl (int64 0))) [
    | inl e ↦ inl (rw e)
    | inr e ↦ elim (Bool-cases (ltb (seconds 86400) ttl)) [
      | inl f ↦ inl (rw (e, f))
      | inr f ↦ rw (e, f) (store-other c k value (expiry now ttl) now now j v other)
    ]
  ]
