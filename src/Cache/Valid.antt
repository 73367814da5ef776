-- ===== src/Cache/Valid.antt =====
-- internal/cache: the invariant that every method of the cache keeps, over any policy that obeys
-- the laws.
use distributed_caching.Prelude.{
  ℕ, ◌≤◌, ◌<◌, ◌≡◌, refl, true, false, none, some, ◌⊎◌, inl, inr, ite, ltb, leb, arith, leb→le,
  seconds, length, Str, Time, Duration, int64, str_key, Option-cases, Bool-cases, ◌≢◌, sym, ◌∙◌, ap,
}
use distributed_caching.Prelude.Dict.{
  IsMap, lookup, insert, delete, insert-IsMap, delete-IsMap, has, has-insert, has-delete,
  has-insert_old, length-insert_old, length-insert_new, length-delete, length-delete-le, has-true,
  has-nonempty, lookup-delete,
}
use distributed_caching.Policy.{EvictionPolicy, Laws}
use distributed_caching.Cache.{
  CacheEntry, InMemoryCache, expiry, is_expired, expire, touch, get, drop_victim, make_room,
  update_entry, insert_entry, store, set, remove, new,
}

module _ {p : EvictionPolicy} (l : Laws p) where
  -- The map and the policy agree on which keys are cached, and the map is within the capacity.
  pub record IsValid (c : InMemoryCache p) : Type 0 where
    pub positive : 0 < c.capacity
    pub map : IsMap c.entries
    pub bounded : length c.entries ≤ c.capacity
    pub policy : l.IsValid c.policy
    pub agrees : (j : Str) → l.tracks c.policy j ≡ has j c.entries

  -- An entry that the map holds is changed, and its key counts as used.
  pub rewrite-IsValid :
      (c : InMemoryCache p) (k : Str) {e : CacheEntry} (e' : CacheEntry) (t : Time)
      → lookup k c.entries ≡ some e
      → IsValid c
      → IsValid (record c { entries = insert k e' c.entries; policy = p.on_access t k c.policy })
  rewrite-IsValid c k e' t found v = record {
    positive = v.positive;
    map = insert-IsMap k e' c.entries v.map;
    bounded = rw (length-insert_old k e' c.entries found) v.bounded;
    policy = l.on_access-IsValid t k c.policy v.policy;
    agrees = λ j.
        l.tracks-on_access t k j c.policy v.policy
        ∙ v.agrees j
        ∙ sym (has-insert_old k j e' c.entries found);
  }

  -- A key is dropped from the map and from the policy, whose state may have moved on.
  drop-IsValid :
      (c : InMemoryCache p) (k : Str) (s : p.State)
      → l.IsValid s
      → ((j : Str) → l.tracks s j ≡ l.tracks c.policy j)
      → IsValid c
      → IsValid (record c { entries = delete k c.entries; policy = p.on_evict k s })
  drop-IsValid c k s w same v = record {
    positive = v.positive;
    map = delete-IsMap k c.entries v.map;
    bounded = omega (arith, v.bounded, length-delete-le k c.entries);
    policy = l.on_evict-IsValid k s w;
    agrees = λ j.
        ground (arith, l.tracks-on_evict k j s w, has-delete k j c.entries, same j, v.agrees j);
  }

  pub expire-IsValid :
      (c : InMemoryCache p) (k : Str) (t : Time) → IsValid c → IsValid (expire c k t)
  unfolding expire
  expire-IsValid c k t v = elim (Option-cases (lookup k c.entries)) [
    | inl e ↦ rw (e, expire) v
    | inr (x, e) ↦ elim (Bool-cases (is_expired x t)) [
      | inl old ↦ rw (e, expire, old) (drop-IsValid c k c.policy v.policy (λ j. refl) v)
      | inr live ↦ rw (e, expire, live) v
    ]
  ]

  -- `Get` keeps the cache valid, whether it hits, misses or drops an expired entry.
  pub get-IsValid :
      (c : InMemoryCache p) (k : Str) (checked now : Time)
      → IsValid c
      → IsValid (get c k checked now).0
  unfolding get touch
  get-IsValid c k checked now v = elim (Option-cases (lookup k c.entries)) [
    | inl e ↦ rw (e, get) v
    | inr (x, e) ↦ elim (Bool-cases (is_expired x checked)) [
      | inl old ↦ rw (e, get, old) (expire-IsValid c k now v)
      | inr live ↦ rw (e, get, live) (rewrite-IsValid c k _ now e v)
    ]
  ]

  -- A full cache holds an entry, so its policy has a key to give up.
  full-evict :
      (c : InMemoryCache p)
      → c.capacity ≤ length c.entries
      → IsValid c
      → (p.evict c.policy).0 ≢ none
  full-evict c full v none_left =
      let (j, held) = has-nonempty c.entries (λ e. omega (arith, v.positive, ap length e)) in
      cc (l.evict-none c.policy v.policy none_left j, v.agrees j, held)

  -- How `Set` makes room: not at all below the capacity, and otherwise by dropping one entry,
  -- that of the key which the policy selects.
  abbrev pub Room : InMemoryCache p → InMemoryCache p → Type 0
  Room c d =
      ((length c.entries < c.capacity) × (d ≡ c))
      ⊎ ((k : Str) × (length c.entries ≡ c.capacity)
          × ((p.evict c.policy).0 ≡ some k)
          × (has k c.entries ≡ true)
          × (d ≡ record c {
            entries = delete k c.entries;
            policy = p.on_evict k (p.evict c.policy).1;
          }))

  pub make_room-Room : (c : InMemoryCache p) → IsValid c → Room c (make_room c)
  unfolding make_room drop_victim
  make_room-Room c v = elim (Bool-cases (leb c.capacity (length c.entries))) [
    | inl full ↦ elim (Option-cases (p.evict c.policy).0) [
      | inl e ↦ absurd (full-evict c (ground arith) v e)
      | inr (k, e) ↦ inr (
        k,
        omega (arith, leb→le _ _ full, v.bounded),
        e,
        sym (v.agrees k) ∙ l.evict-some c.policy v.policy e,
        rw (full, e, drop_victim),
      )
    ]
    | inr room ↦ inl (ground arith, rw room)
  ]

  pub make_room-IsValid :
      (c : InMemoryCache p)
      → IsValid c
      → IsValid (make_room c)
        × (length (make_room c).entries < c.capacity)
        × ((make_room c).capacity ≡ c.capacity)
  make_room-IsValid c v = elim (make_room-Room c v) [
    | inl (room, e) ↦ rw e (v, room, refl)
    | inr (k, full, e, held, r) ↦
        let (x, found) = has-true k c.entries held in
        rw r (
          drop-IsValid c k _ (l.evict-IsValid c.policy v.policy)
              (λ j. l.tracks-evict j c.policy v.policy) v,
          omega (arith, length-delete k c.entries v.map found, v.bounded),
          refl,
        )
  ]

  has-make_room :
      (c : InMemoryCache p) (j : Str)
      → IsValid c
      → lookup j c.entries ≡ none
      → lookup j (make_room c).entries ≡ none
  has-make_room c j v absent = elim (make_room-Room c v) [
    | inl (_, e) ↦ rw e absent
    | inr (k, _, _, _, r) ↦ rw r (ground (arith, lookup-delete k j c.entries))
  ]

  insert_entry-IsValid :
      (c : InMemoryCache p) (k value : Str) (x now locked : Time)
      → lookup k c.entries ≡ none
      → length c.entries < c.capacity
      → IsValid c
      → IsValid (insert_entry c k value x now locked)
  unfolding insert_entry
  insert_entry-IsValid c k value x now locked absent room v = record {
    positive = v.positive;
    map = insert-IsMap k _ c.entries v.map;
    bounded = rw (length-insert_new k _ c.entries absent) (omega arith);
    policy = l.on_insert-IsValid locked k x c.policy fresh v.policy;
    agrees = λ j.
        l.tracks-on_insert locked k j x c.policy fresh v.policy
        ∙ ap (ite (str_key.dec k j) true) (v.agrees j)
        ∙ sym (has-insert k j _ c.entries);
  }
    where
      fresh : l.tracks c.policy k ≡ false
      fresh = ground (arith, v.agrees k)

  pub store-IsValid :
      (c : InMemoryCache p) (k value : Str) (x now locked : Time)
      → IsValid c
      → IsValid (store c k value x now locked)
  unfolding store update_entry
  store-IsValid c k value x now locked v = elim (Option-cases (lookup k c.entries)) [
    | inl e ↦
        let (w, room, same) = make_room-IsValid c v in
        rw (e, store)
          (insert_entry-IsValid (make_room c) k value x now locked (has-make_room c k v e)
            (rw same room) w)
    | inr (y, e) ↦ rw (e, store) (rewrite-IsValid c k _ locked e v)
  ]

  -- `Set` keeps the cache valid, whatever TTL it is given, and never above its capacity.
  pub set-IsValid :
      (c : InMemoryCache p) (k value : Str) (ttl : Duration) (now : Time)
      → IsValid c
      → IsValid (set c k value ttl now).0
  unfolding set
  set-IsValid c k value ttl now v = elim (Bool-cases (ltb ttl (int64 0))) [
    | inl e ↦ rw e v
    | inr e ↦ elim (Bool-cases (ltb (seconds 86400) ttl)) [
      | inl f ↦ rw (e, f) v
      | inr f ↦ rw (e, f) (store-IsValid c k value (expiry now ttl) now now v)
    ]
  ]

  -- `Delete` keeps the cache valid.
  pub remove-IsValid : (c : InMemoryCache p) (k : Str) → IsValid c → IsValid (remove c k)
  unfolding remove
  remove-IsValid c k v = elim (Option-cases (lookup k c.entries)) [
    | inl e ↦ rw (e, remove) v
    | inr (x, e) ↦ rw (e, remove) (drop-IsValid c k c.policy v.policy (λ j. refl) v)
  ]

  -- A new cache is valid over a policy that tracks nothing yet.
  pub new-IsValid :
      (capacity : ℕ) (s : p.State)
      → 0 < capacity
      → l.IsValid s
      → ((j : Str) → l.tracks s j ≡ false)
      → IsValid (new capacity s)
  unfolding new lookup
  new-IsValid capacity s h v none_tracked = record {
    positive = h;
    map = tt;
    bounded = omega arith;
    policy = v;
    agrees = none_tracked;
  }
