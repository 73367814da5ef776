-- ===== src/Cache/Concurrent/Effect.antt =====
-- internal/cache/cache.go: what a step of one call does to an entry to which another call may hold a
-- pointer.
use distributed_caching.Prelude.{
  ◌<◌, ◌≡◌, ◌≢◌, refl, sym, ap, some, ◌⊎◌, inl, inr, arith, length, leb, Str, Time, Option-cases,
  Bool-cases, str_key, ◌∙◌, ℕ_discrete, subst,
}
use distributed_caching.Prelude.Dict.{lookup}
use distributed_caching.Policy.{EvictionPolicy}
use distributed_caching.Cache.{is_expired, CacheEntry}
use distributed_caching.Cache.Concurrent.{
  Addr, Shared, update, drop_key, expire_key, touch_object, drop_for_room, room_for_new,
  update_object, insert_object, store_object, remove_key, Phase, get_request, set_request,
  remove_request, asked, found, timed, old, live, touched, got, storing, stored, removed, advance,
}
use distributed_caching.Cache.Concurrent.Deref.{update-same, update-other, Named-lookup}
use distributed_caching.Cache.Concurrent.View.{
  IsSound, expire_key-IsSound, remove_key-IsSound, touch_object-IsSound, store_object-IsSound,
}

-- What `Get` reads of an entry.
abbrev pub item : CacheEntry → Str × Time
item e = (e.value, e.expires_at)

module _ {p : EvictionPolicy} where
  -- An address that a call got from the map for the key.
  abbrev pub Points : Shared p → Str → Addr → Type 0
  Points s k a = ((s.objs a).key ≡ k) × (a < s.fresh)

  -- The value and the expiry time of the entry change only while the map holds the entry.
  pub record Effect (s : Shared p) (s' : Shared p) (k : Str) (a : Addr) : Type 0 where
    pub points : Points s' k a
    pub item : (item (s'.objs a) ≡ item (s.objs a)) ⊎ (lookup k s'.entries ≡ some a)

  pub Effect-refl : (s : Shared p) (k : Str) (a : Addr) → Points s k a → Effect s s k a
  Effect-refl s k a w = record { points = w; item = inl refl }

  drop_key-Effect :
      (s : Shared p) (j : Str) (st : p.State) (k : Str) (a : Addr)
      → Points s k a
      → Effect s (drop_key s j st) k a
  drop_key-Effect s j st k a w = record { points = w; item = inl refl }

  expire_key-Effect :
      (s : Shared p) (j : Str) (now : Time) (k : Str) (a : Addr)
      → Points s k a
      → Effect s (expire_key s j now) k a
  unfolding expire_key
  expire_key-Effect s j now k a w = elim (Option-cases (lookup j s.entries)) [
    | inl e ↦ rw (e, expire_key) (Effect-refl s k a w)
    | inr (b, e) ↦ elim (Bool-cases (is_expired (s.objs b) now)) [
      | inl h ↦ rw (e, expire_key, h) (drop_key-Effect s j s.policy k a w)
      | inr h ↦ rw (e, expire_key, h) (Effect-refl s k a w)
    ]
  ]

  remove_key-Effect :
      (s : Shared p) (j : Str) (k : Str) (a : Addr) → Points s k a → Effect s (remove_key s j) k a
  unfolding remove_key
  remove_key-Effect s j k a w = elim (Option-cases (lookup j s.entries)) [
    | inl e ↦ rw (e, remove_key) (Effect-refl s k a w)
    | inr (b, e) ↦ rw (e, remove_key) (drop_key-Effect s j s.policy k a w)
  ]

  -- A write to an object that keeps its key: the value may change if the object is that of the map.
  write-Effect :
      (s : Shared p) (b : Addr) (e : CacheEntry) (st : p.State) (k : Str) (a : Addr)
      → e.key ≡ (s.objs b).key
      → (item e ≡ item (s.objs b)) ⊎ (b ≡ a → lookup k s.entries ≡ some a)
      → Points s k a
      → Effect s (record s { objs = update s.objs b e; policy = st }) k a
  write-Effect s b e st k a same v w = elim (ℕ_discrete b a) [
    | yes h ↦ record {
      points =
          (ap (λ x. x.key) (update-same s.objs e h) ∙ same ∙ ap (λ x. (s.objs x).key) h ∙ w.0, w.1);
      item = elim v [
        | inl u ↦ inl (ap item (update-same s.objs e h) ∙ u ∙ ap (λ x. item (s.objs x)) h)
        | inr u ↦ inr (u h)
      ];
    }
    | no h ↦ record {
      points = (ap (λ x. x.key) (update-other s.objs e h) ∙ w.0, w.1);
      item = inl (ap item (update-other s.objs e h));
    }
  ]

  touch_object-Effect :
      (s : Shared p) (j : Str) (b : Addr) (now : Time) (k : Str) (a : Addr)
      → Points s k a
      → Effect s (touch_object s j b now) k a
  unfolding touch_object
  touch_object-Effect s j b now k a w = write-Effect s b _ _ k a refl (inl refl) w

  -- Making room leaves the objects alone.
  room_for_new-objs :
      (s : Shared p) → ((room_for_new s).objs ≡ s.objs) × ((room_for_new s).fresh ≡ s.fresh)
  unfolding room_for_new drop_for_room
  room_for_new-objs s = elim (Bool-cases (leb s.capacity (length s.entries))) [
    | inl h ↦ elim (Option-cases (p.evict s.policy).0) [
      | inl e ↦ rw (h, e, drop_for_room) (refl, refl)
      | inr (j, e) ↦ rw (h, e, drop_for_room) (refl, refl)
    ]
    | inr h ↦ rw h (refl, refl)
  ]

  insert_object-Effect :
      (s : Shared p) (j v : Str) (x now locked : Time) (k : Str) (a : Addr)
      → Points s k a
      → Effect s (insert_object (room_for_new s) j v x now locked) k a
  unfolding insert_object
  insert_object-Effect s j v x now locked k a w =
      let (objs, fresh) = room_for_new-objs s in
      let other : (room_for_new s).fresh ≢ a = λ h. omega (arith, h, fresh, w.1) in
      record {
        points = (
          ap (λ x. x.key) (update-other (room_for_new s).objs _ other)
              ∙ ap (λ f. (f a).key) objs
              ∙ w.0,
          omega (arith, w.1, fresh),
        );
        item =
            inl (ap item (update-other (room_for_new s).objs _ other) ∙ ap (λ f. item (f a)) objs);
      }

  store_object-Effect :
      (s : Shared p) (j v : Str) (x now locked : Time) (k : Str) (a : Addr)
      → IsSound s
      → Points s k a
      → Effect s (store_object s j v x now locked) k a
  unfolding store_object update_object
  store_object-Effect s j v x now locked k a sound w = elim (Option-cases (lookup j s.entries)) [
    | inl e ↦ rw (e, store_object) (insert_object-Effect s j v x now locked k a w)
    | inr (b, e) ↦ rw (e, store_object) (write-Effect s b _ _ k a refl (inr (held b e)) w)
  ]
    where
      held : (b : Addr) → lookup j s.entries ≡ some b → b ≡ a → lookup k s.entries ≡ some a
      held b e h =
          let named = (Named-lookup s.objs s.fresh j s.entries sound.named e).0 in
          let same : j ≡ k = sym named ∙ ap (λ x. (s.objs x).key) h ∙ w.0 in
          subst (λ i. lookup i s.entries ≡ some a) same (e ∙ ap some h)

  -- The next step of any call.
  pub advance-Effect :
      (s : Shared p) (now : Time) (phase : Phase) (k : Str) (a : Addr)
      → IsSound s
      → Points s k a
      → Effect s (advance s now phase).0 k a
  unfolding advance
  advance-Effect s now (asked (get_request j)) k a sound w = Effect-refl s k a w
  advance-Effect s now (asked (set_request j v ttl)) k a sound w = Effect-refl s k a w
  advance-Effect s now (asked (remove_request j)) k a sound w = remove_key-Effect s j k a w
  advance-Effect s now (found j b) k a sound w = Effect-refl s k a w
  advance-Effect s now (timed j b read) k a sound w = Effect-refl s k a w
  advance-Effect s now (old j) k a sound w = expire_key-Effect s j now k a w
  advance-Effect s now (live j b) k a sound w = touch_object-Effect s j b now k a w
  advance-Effect s now (touched j b) k a sound w = Effect-refl s k a w
  advance-Effect s now (got r) k a sound w = Effect-refl s k a w
  advance-Effect s now (storing j v x at_call) k a sound w =
      store_object-Effect s j v x at_call now k a sound w
  advance-Effect s now (stored r) k a sound w = Effect-refl s k a w
  advance-Effect s now removed k a sound w = Effect-refl s k a w

  pub advance-IsSound :
      (s : Shared p) (now : Time) (phase : Phase) → IsSound s → IsSound (advance s now phase).0
  unfolding advance
  advance-IsSound s now (asked (get_request j)) w = w
  advance-IsSound s now (asked (set_request j v ttl)) w = w
  advance-IsSound s now (asked (remove_request j)) w = remove_key-IsSound s j w
  advance-IsSound s now (found j b) w = w
  advance-IsSound s now (timed j b read) w = w
  advance-IsSound s now (old j) w = expire_key-IsSound s j now w
  advance-IsSound s now (live j b) w = touch_object-IsSound s j b now w
  advance-IsSound s now (touched j b) w = w
  advance-IsSound s now (got r) w = w
  advance-IsSound s now (storing j v x at_call) w = store_object-IsSound s j v x at_call now w
  advance-IsSound s now (stored r) w = w
  advance-IsSound s now removed w = w
