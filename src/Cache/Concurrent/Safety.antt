-- ===== src/Cache/Concurrent/Safety.antt =====
-- internal/cache/cache.go: what holds of the shared cache while any number of calls run at once.
use distributed_caching.Prelude.{
  ℕ, ◌<◌, ◌≡◌, ◌≢◌, refl, sym, ap, subst, true, false, Bool, Option, none, some, ◌⊎◌, inl, inr,
  arith, Str, Time, Option-cases, Bool-cases, str_key, ◌∙◌, ℕ_discrete, ltb, int64, Duration,
  seconds, if◌then◌else◌,
}
use distributed_caching.Prelude.Dict.{lookup}
use distributed_caching.Policy.{EvictionPolicy, Laws}
use distributed_caching.Cache.{is_expired, CacheEntry, InMemoryCache, new, touch}
use distributed_caching.Cache.Valid.{
  IsValid, expire-IsValid, store-IsValid, remove-IsValid, new-IsValid, rewrite-IsValid,
}
use distributed_caching.Cache.Concurrent.{
  Addr, Shared, view, new_shared, Phase, Request, get_request, set_request, remove_request, asked,
  found, timed, old, live, touched, got, storing, stored, removed, advance, look_up, admit, System,
  start, move, Step, moves, ticks, Run, here, next, touch_object,
}
use distributed_caching.Cache.Concurrent.Deref.{update-same, update-other, Named-lookup}
use distributed_caching.Cache.Concurrent.View.{
  IsSound, view-expire_key, view-remove_key, view-store_object, view-touch_object,
  view-touch_dropped, lookup-view,
}
use distributed_caching.Cache.Concurrent.Effect.{Points, advance-Effect, advance-IsSound}

module _ {p : EvictionPolicy} where
  -- The pointers that a call holds.
  abbrev pub Refs : Shared p → Phase → Type 0
  Refs s (asked r) = Unit
  Refs s (found k a) = Points s k a
  Refs s (timed k a now) = Points s k a
  Refs s (old k) = Unit
  Refs s (live k a) = Points s k a
  Refs s (touched k a) = Points s k a
  Refs s (got r) = Unit
  Refs s (storing k v x now) = Unit
  Refs s (stored r) = Unit
  Refs s removed = Unit

  -- The pointers of one call survive a step of another.
  Refs-advance :
      (s : Shared p) (now : Time) (phase other : Phase)
      → IsSound s
      → Refs s other
      → Refs (advance s now phase).0 other
  Refs-advance s now phase (asked r) w h = tt
  Refs-advance s now phase (found k a) w h = (advance-Effect s now phase k a w h).points
  Refs-advance s now phase (timed k a read) w h = (advance-Effect s now phase k a w h).points
  Refs-advance s now phase (old k) w h = tt
  Refs-advance s now phase (live k a) w h = (advance-Effect s now phase k a w h).points
  Refs-advance s now phase (touched k a) w h = (advance-Effect s now phase k a w h).points
  Refs-advance s now phase (got r) w h = tt
  Refs-advance s now phase (storing k v x at_call) w h = tt
  Refs-advance s now phase (stored r) w h = tt
  Refs-advance s now phase removed w h = tt

  look_up-Refs :
      (s : Shared p) (k : Str) (r : Option Addr)
      → IsSound s
      → lookup k s.entries ≡ r
      → Refs s (look_up k r)
  look_up-Refs s k none w h = tt
  look_up-Refs s k (some a) w h = Named-lookup s.objs s.fresh k s.entries w.named h

  test-Refs :
      (s : Shared p) (k : Str) (a : Addr) (b : Bool)
      → Points s k a
      → Refs s (if b then old k else live k a)
  test-Refs s k a true h = tt
  test-Refs s k a false h = h

  admit-Refs : (s : Shared p) (k v : Str) (ttl : Duration) (now : Time) → Refs s (admit k v ttl now)
  admit-Refs s k v ttl now = elim (Bool-cases (ltb ttl (int64 0))) [
    | inl e ↦ rw e tt
    | inr e ↦ elim (Bool-cases (ltb (seconds 86400) ttl)) [
      | inl f ↦ rw (e, f) tt
      | inr f ↦ rw (e, f) tt
    ]
  ]

  -- The pointers that a call holds after its own step, before the cache changes.
  pub next-Refs :
      (s : Shared p) (now : Time) (phase : Phase)
      → IsSound s
      → Refs s phase
      → Refs s (advance s now phase).1
  unfolding advance
  next-Refs s now (asked (get_request k)) w h = look_up-Refs s k _ w refl
  next-Refs s now (asked (set_request k v ttl)) w h = admit-Refs s k v ttl now
  next-Refs s now (asked (remove_request k)) w h = tt
  next-Refs s now (found k a) w h = h
  next-Refs s now (timed k a read) w h = test-Refs s k a (is_expired (s.objs a) read) h
  next-Refs s now (old k) w h = tt
  next-Refs s now (live k a) w h = h
  next-Refs s now (touched k a) w h = tt
  next-Refs s now (got r) w h = tt
  next-Refs s now (storing k v x at_call) w h = tt
  next-Refs s now (stored r) w h = tt
  next-Refs s now removed w h = tt

  pub record AllSound (m : System p) : Type 0 where
    pub shared : IsSound m.shared
    pub refs : (t : ℕ) → Refs m.shared (m.calls t)

  Step-AllSound : {m n : System p} → Step m n → AllSound m → AllSound n
  unfolding move
  Step-AllSound {m} (moves t) w = record {
    shared = advance-IsSound m.shared m.clock (m.calls t) w.shared;
    refs = λ u. elim (ℕ_discrete t u) [
      | yes e ↦
          subst (Refs (advance m.shared m.clock (m.calls t)).0) (sym (update-same m.calls _ e)) (
            Refs-advance m.shared m.clock (m.calls t) (advance m.shared m.clock (m.calls t)).1
              w.shared (next-Refs m.shared m.clock (m.calls t) w.shared (w.refs t)))
      | no n ↦
          subst (Refs (advance m.shared m.clock (m.calls t)).0) (sym (update-other m.calls _ n))
            (Refs-advance m.shared m.clock (m.calls t) (m.calls u) w.shared (w.refs u))
    ];
  }
  Step-AllSound (ticks now) w = record { shared = w.shared; refs = w.refs }

  pub Run-AllSound : {m n : System p} → Run m n → AllSound m → AllSound n
  Run-AllSound here w = w
  Run-AllSound (next r st) w = Step-AllSound st (Run-AllSound r w)

  pub start-AllSound :
      (capacity : ℕ) (st : p.State) (requests : ℕ → Request) (clock : Time)
      → AllSound (start (new_shared capacity st) requests clock)
  unfolding start new_shared
  start-AllSound capacity st requests clock = record {
    shared = record { map = tt; named = tt };
    refs = λ t. tt;
  }

holds :
    {p : EvictionPolicy} (k : Str) (a : Addr) (s : Shared p)
    → (lookup k s.entries ≡ some a) ⊎ (lookup k s.entries ≢ some a)
holds k a s = elim (Option-cases (lookup k s.entries)) [
  | inl e ↦ inr (λ h. cc (e, h))
  | inr (b, e) ↦ elim (ℕ_discrete b a) [
    | yes h ↦ inl (e ∙ ap some h)
    | no n ↦ inr (λ h. n (ground arith))
  ]
]

module _ {p : EvictionPolicy} (l : Laws p) where
  on_access-IsValid :
      (c : InMemoryCache p) (k : Str) (now : Time)
      → IsValid l c
      → IsValid l (record c { policy = p.on_access now k c.policy })
  on_access-IsValid c k now v = record {
    positive = v.positive;
    map = v.map;
    bounded = v.bounded;
    policy = l.on_access-IsValid now k c.policy v.policy;
    agrees = λ j. l.tracks-on_access now k j c.policy v.policy ∙ v.agrees j;
  }

  touch-IsValid :
      (c : InMemoryCache p) (k : Str) (e : CacheEntry) (now : Time)
      → lookup k c.entries ≡ some e
      → IsValid l c
      → IsValid l (touch c k e now)
  unfolding touch
  touch-IsValid c k e now h v = rewrite-IsValid l c k _ now h v

  touch_object-IsValid :
      (s : Shared p) (k : Str) (a : Addr) (now : Time)
      → IsSound s
      → (s.objs a).key ≡ k
      → IsValid l (view s)
      → IsValid l (view (touch_object s k a now))
  unfolding view
  touch_object-IsValid s k a now w named v = elim (holds k a s) [
    | inl e ↦
        subst (IsValid l) (sym (view-touch_object s k a now w e))
          (touch-IsValid (view s) k (s.objs a) now (lookup-view s k e) v)
    | inr n ↦
        subst (IsValid l) (sym (view-touch_dropped s k a now w named n))
          (on_access-IsValid (view s) k now v)
  ]

  advance-IsValid :
      (s : Shared p) (now : Time) (phase : Phase)
      → IsSound s
      → Refs s phase
      → IsValid l (view s)
      → IsValid l (view (advance s now phase).0)
  unfolding advance
  advance-IsValid s now (asked (get_request k)) w h v = v
  advance-IsValid s now (asked (set_request k x ttl)) w h v = v
  advance-IsValid s now (asked (remove_request k)) w h v =
      subst (IsValid l) (sym (view-remove_key s k)) (remove-IsValid l (view s) k v)
  advance-IsValid s now (found k a) w h v = v
  advance-IsValid s now (timed k a read) w h v = v
  advance-IsValid s now (old k) w h v =
      subst (IsValid l) (sym (view-expire_key s k now)) (expire-IsValid l (view s) k now v)
  advance-IsValid s now (live k a) w h v = touch_object-IsValid s k a now w h.0 v
  advance-IsValid s now (touched k a) w h v = v
  advance-IsValid s now (got r) w h v = v
  advance-IsValid s now (storing k x e at_call) w h v =
      subst (IsValid l) (sym (view-store_object s k x e at_call now w))
        (store-IsValid l (view s) k x e at_call now v)
  advance-IsValid s now (stored r) w h v = v
  advance-IsValid s now removed w h v = v

  Step-IsValid :
      {m n : System p}
      → Step m n
      → AllSound m
      → IsValid l (view m.shared)
      → IsValid l (view n.shared)
  unfolding move
  Step-IsValid {m} (moves t) w v =
      advance-IsValid m.shared m.clock (m.calls t) w.shared (w.refs t) v
  Step-IsValid (ticks now) w v = v

  Run-IsValid :
      {m n : System p}
      → Run m n
      → AllSound m
      → IsValid l (view m.shared)
      → IsValid l (view n.shared)
  Run-IsValid here w v = v
  Run-IsValid (next r st) w v = Step-IsValid st (Run-AllSound r w) (Run-IsValid r w v)

  -- However many calls of Get, Set and Delete run at once on a new cache, and in whatever order
  -- their steps come, the cache stays valid: the map is within the capacity, holds a key at most
  -- once, and the policy tracks exactly its keys. The cache has a positive capacity and a policy
  -- that obeys the laws and tracks nothing yet.
  pub concurrent-IsValid :
      (capacity : ℕ) (st : p.State) (requests : ℕ → Request) (clock : Time) {n : System p}
      → 0 < capacity
      → l.IsValid st
      → ((j : Str) → l.tracks st j ≡ false)
      → Run (start (new_shared capacity st) requests clock) n
      → IsValid l (view n.shared)
  unfolding start new_shared view new
  concurrent-IsValid capacity st requests clock h valid none_tracked r =
      Run-IsValid r (start-AllSound capacity st requests clock)
        (new-IsValid l capacity st h valid none_tracked)
