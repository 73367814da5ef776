-- ===== src/Cache/Concurrent/View.antt =====
-- internal/cache/cache.go: what runs under a lock, against the sequential cache: on sound objects each
-- locked part does to the view what the sequential method does.
use distributed_caching.Prelude.{
  ◌≡◌, ◌≢◌, refl, ap, ap₂, Option, none, some, arith, length, leb, Str, Time, Option-cases,
  Bool-cases, inl, inr, str_key, ◌∙◌,
}
use distributed_caching.Prelude.Dict.{IsMap, lookup, insert, delete, insert-IsMap, delete-IsMap}
use distributed_caching.Policy.{EvictionPolicy}
use distributed_caching.Cache.{
  is_expired, expire, touch, drop_victim, make_room, update_entry, insert_entry, store, remove,
}
use distributed_caching.Cache.Concurrent.{
  Addr, Shared, view, drop_key, expire_key, touch_object, drop_for_room, room_for_new,
  update_object, insert_object, store_object, remove_key,
}
use distributed_caching.Cache.Concurrent.Deref.{
  Named, lookup-deref, length-deref, deref-delete, deref-insert, deref-update, deref-update_other,
  deref-update_fresh, update-same, delete-Named, update-Named, insert_fresh-Named,
}

module _ {p : EvictionPolicy} where
  -- The map holds a key once, and its pointers point to allocated entries of their keys.
  pub record IsSound (s : Shared p) : Type 0 where
    pub map : IsMap s.entries
    pub named : Named s.objs s.fresh s.entries

  view-drop_key :
      (s : Shared p) (k : Str) (st : p.State)
      → view (drop_key s k st)
        ≡ record (view s) { entries = delete k (view s).entries; policy = p.on_evict k st }
  unfolding view
  view-drop_key s k st =
      ap (λ m. record { entries = m; capacity = s.capacity; policy = p.on_evict k st })
        (deref-delete s.objs k s.entries)

  pub lookup-view :
      (s : Shared p) (k : Str) {r : Option Addr}
      → lookup k s.entries ≡ r
      → lookup k (view s).entries ≡ elim r [ none ↦ none | some a ↦ some (s.objs a) ]
  unfolding view
  lookup-view s k h = ground (arith, lookup-deref s.objs k s.entries)

  pub view-expire_key :
      (s : Shared p) (k : Str) (now : Time) → view (expire_key s k now) ≡ expire (view s) k now
  unfolding expire_key expire view
  view-expire_key s k now = elim (Option-cases (lookup k s.entries)) [
    | inl e ↦ rw (e, expire_key, lookup-view s k e, expire) refl
    | inr (a, e) ↦ elim (Bool-cases (is_expired (s.objs a) now)) [
      | inl h ↦ rw (e, expire_key, lookup-view s k e, expire, h) (view-drop_key s k s.policy)
      | inr h ↦ rw (e, expire_key, lookup-view s k e, expire, h) refl
    ]
  ]

  pub view-remove_key : (s : Shared p) (k : Str) → view (remove_key s k) ≡ remove (view s) k
  unfolding remove_key remove view
  view-remove_key s k = elim (Option-cases (lookup k s.entries)) [
    | inl e ↦ rw (e, remove_key, lookup-view s k e, remove) refl
    | inr (a, e) ↦ rw (e, remove_key, lookup-view s k e, remove) (view-drop_key s k s.policy)
  ]

  pub view-touch_object :
      (s : Shared p) (k : Str) (a : Addr) (now : Time)
      → IsSound s
      → lookup k s.entries ≡ some a
      → view (touch_object s k a now) ≡ touch (view s) k (s.objs a) now
  unfolding view touch_object touch
  view-touch_object s k a now w held =
      ap (λ m. record { entries = m; capacity = s.capacity; policy = p.on_access now k s.policy })
        (deref-update s.objs s.fresh k a _ s.entries w.map w.named held)

  -- An entry that the map has dropped is touched unseen, but the policy hears of it.
  pub view-touch_dropped :
      (s : Shared p) (k : Str) (a : Addr) (now : Time)
      → IsSound s
      → (s.objs a).key ≡ k
      → lookup k s.entries ≢ some a
      → view (touch_object s k a now) ≡ record (view s) { policy = p.on_access now k s.policy }
  unfolding view touch_object
  view-touch_dropped s k a now w named dropped =
      ap (λ m. record { entries = m; capacity = s.capacity; policy = p.on_access now k s.policy })
        (deref-update_other s.objs s.fresh k a _ s.entries named w.map w.named dropped)

  view-drop_for_room :
      (s : Shared p) (r : Option Str) (st : p.State)
      → view (drop_for_room s r st) ≡ drop_victim (view s) r st
  unfolding drop_for_room drop_victim view
  view-drop_for_room s none st = refl
  view-drop_for_room s (some k) st = view-drop_key s k st

  view-room_for_new : (s : Shared p) → view (room_for_new s) ≡ make_room (view s)
  unfolding room_for_new make_room view
  view-room_for_new s =
      rw (length-deref s.objs s.entries) (elim (Bool-cases (leb s.capacity (length s.entries))) [
        | inl h ↦ rw h (view-drop_for_room s (p.evict s.policy).0 (p.evict s.policy).1)
        | inr h ↦ rw h refl
      ])

  view-insert_object :
      (s : Shared p) (k v : Str) (x now locked : Time)
      → IsSound s
      → view (insert_object s k v x now locked) ≡ insert_entry (view s) k v x now locked
  unfolding view insert_object insert_entry
  view-insert_object s k v x now locked w =
      ap
        (λ m. record {
          entries = m;
          capacity = s.capacity;
          policy = p.on_insert locked k x s.policy;
        })
        (deref-insert _ k s.fresh s.entries
          ∙ ap₂ (insert k) (update-same s.objs {i = s.fresh} _ refl)
              (deref-update_fresh s.objs s.fresh _ s.entries w.named))

  drop_key-IsSound : (s : Shared p) (k : Str) (st : p.State) → IsSound s → IsSound (drop_key s k st)
  drop_key-IsSound s k st w = record {
    map = delete-IsMap k s.entries w.map;
    named = delete-Named s.objs s.fresh k s.entries w.named;
  }

  pub expire_key-IsSound :
      (s : Shared p) (k : Str) (now : Time) → IsSound s → IsSound (expire_key s k now)
  unfolding expire_key
  expire_key-IsSound s k now w = elim (Option-cases (lookup k s.entries)) [
    | inl e ↦ rw (e, expire_key) w
    | inr (a, e) ↦ elim (Bool-cases (is_expired (s.objs a) now)) [
      | inl h ↦ rw (e, expire_key, h) (drop_key-IsSound s k s.policy w)
      | inr h ↦ rw (e, expire_key, h) w
    ]
  ]

  pub remove_key-IsSound : (s : Shared p) (k : Str) → IsSound s → IsSound (remove_key s k)
  unfolding remove_key
  remove_key-IsSound s k w = elim (Option-cases (lookup k s.entries)) [
    | inl e ↦ rw (e, remove_key) w
    | inr (a, e) ↦ rw (e, remove_key) (drop_key-IsSound s k s.policy w)
  ]

  pub touch_object-IsSound :
      (s : Shared p) (k : Str) (a : Addr) (now : Time)
      → IsSound s
      → IsSound (touch_object s k a now)
  unfolding touch_object
  touch_object-IsSound s k a now w = record {
    map = w.map;
    named = update-Named s.objs s.fresh a _ s.entries refl w.named;
  }

  room_for_new-IsSound : (s : Shared p) → IsSound s → IsSound (room_for_new s)
  unfolding room_for_new drop_for_room
  room_for_new-IsSound s w = elim (Bool-cases (leb s.capacity (length s.entries))) [
    | inl h ↦ elim (Option-cases (p.evict s.policy).0) [
      | inl e ↦ rw (h, e, drop_for_room) (record { map = w.map; named = w.named })
      | inr (k, e) ↦ rw (h, e, drop_for_room) (drop_key-IsSound s k (p.evict s.policy).1 w)
    ]
    | inr h ↦ rw h w
  ]

  insert_object-IsSound :
      (s : Shared p) (k v : Str) (x now locked : Time)
      → IsSound s
      → IsSound (insert_object s k v x now locked)
  unfolding insert_object
  insert_object-IsSound s k v x now locked w = record {
    map = insert-IsMap k s.fresh s.entries w.map;
    named = insert_fresh-Named s.objs s.fresh k _ s.entries refl w.named;
  }

  pub store_object-IsSound :
      (s : Shared p) (k v : Str) (x now locked : Time)
      → IsSound s
      → IsSound (store_object s k v x now locked)
  unfolding store_object update_object
  store_object-IsSound s k v x now locked w = elim (Option-cases (lookup k s.entries)) [
    | inl e ↦
        rw (e, store_object)
          (insert_object-IsSound (room_for_new s) k v x now locked (room_for_new-IsSound s w))
    | inr (a, e) ↦
        rw (e, store_object)
          (record { map = w.map; named = update-Named s.objs s.fresh a _ s.entries refl w.named })
  ]

  pub view-store_object :
      (s : Shared p) (k v : Str) (x now locked : Time)
      → IsSound s
      → view (store_object s k v x now locked) ≡ store (view s) k v x now locked
  unfolding view store_object store update_object update_entry
  view-store_object s k v x now locked w = elim (Option-cases (lookup k s.entries)) [
    | inl e ↦
        rw (e, store_object, lookup-view s k e, store)
          (view-insert_object (room_for_new s) k v x now locked (room_for_new-IsSound s w)
            ∙ ap (λ c. insert_entry c k v x now locked) (view-room_for_new s))
    | inr (a, e) ↦
        rw (e, store_object, lookup-view s k e, store)
          (ap
            (λ m. record {
              entries = m;
              capacity = s.capacity;
              policy = p.on_access locked k s.policy;
            })
            (deref-update s.objs s.fresh k a _ s.entries w.map w.named e))
  ]
