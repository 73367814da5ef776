-- ===== src/Cache/Concurrent/Alone.antt =====
-- internal/cache/cache.go: a call that no other call interrupts.
use distributed_caching.Prelude.{
  ℕ, zero, suc, ◌≡◌, refl, ap, ap₂, true, false, Bool, Option, none, some, inl, inr, Str, ltb, Time,
  Duration, Bool-cases, ◌∙◌, str_key, if◌then◌else◌, int64, seconds,
}
use distributed_caching.Prelude.Dict.{lookup}
use distributed_caching.Policy.{EvictionPolicy}
use distributed_caching.Cache.{is_expired, InMemoryCache, get, set, remove, expiry}
use distributed_caching.Cache.Concurrent.{
  Addr, Shared, view, new_shared, Phase, Request, get_request, set_request, remove_request, asked,
  old, live, got, stored, removed, advance, look_up, admit, touch_object, System, start, move, Run,
}
use distributed_caching.Cache.Concurrent.Deref.{update-same}
use distributed_caching.Cache.Concurrent.View.{
  IsSound, lookup-view, view-expire_key, view-remove_key, view-store_object, view-touch_object,
}
use distributed_caching.Cache.Concurrent.Safety.{Run-AllSound, start-AllSound}

module _ {p : EvictionPolicy} where
  -- What a call does and returns on the sequential cache, when it reads the clock always at `now`.
  abbrev pub sequential : InMemoryCache p → Request → Time → InMemoryCache p × Phase
  sequential c (get_request k) now = ((get c k now now).0, got (get c k now now).1)
  sequential c (set_request k v ttl) now = ((set c k v ttl now).0, stored (set c k v ttl now).1)
  sequential c (remove_request k) now = (remove c k, removed)

  abbrev pub advances : ℕ → Shared p → Time → Phase → Shared p × Phase
  advances zero s now phase = (s, phase)
  advances (suc n) s now phase = advances n (advance s now phase).0 now (advance s now phase).1

  abbrev seen : Shared p × Phase → InMemoryCache p × Phase
  seen (s, phase) = (view s, phase)

  touch_object-value :
      (s : Shared p) (k : Str) (a : Addr) (now : Time)
      → ((touch_object s k a now).objs a).value ≡ (s.objs a).value
  unfolding touch_object
  touch_object-value s k a now = ap (λ x. x.value) (update-same s.objs {i = a} _ refl)

  -- From the test on, and from the lookup on.
  tested-alone :
      (s : Shared p) (k : Str) (a : Addr) (now : Time) (b : Bool)
      → IsSound s
      → lookup k s.entries ≡ some a
      → is_expired (s.objs a) now ≡ b
      → seen (advances 2 s now (if b then old k else live k a))
        ≡ sequential (view s) (get_request k) now
  unfolding advance get
  tested-alone s k a now true w e h =
      rw (lookup-view s k e, get, h) (ap (λ c. (c, got none)) (view-expire_key s k now))
  tested-alone s k a now false w e h =
      rw (lookup-view s k e, get, h)
        (ap₂ (λ c v. (c, got (some v))) (view-touch_object s k a now w e)
          (touch_object-value s k a now))

  found-alone :
      (s : Shared p) (k : Str) (now : Time) (r : Option Addr)
      → IsSound s
      → lookup k s.entries ≡ r
      → seen (advances 4 s now (look_up k r)) ≡ sequential (view s) (get_request k) now
  unfolding advance get
  found-alone s k now none w e = rw (lookup-view s k e, get) refl
  found-alone s k now (some a) w e = tested-alone s k a now _ w e refl

  admitted-alone :
      (s : Shared p) (k v : Str) (ttl : Duration) (now : Time)
      → IsSound s
      → seen (advances 4 s now (admit k v ttl now)) ≡ sequential (view s) (set_request k v ttl) now
  unfolding advance set
  admitted-alone s k v ttl now w = elim (Bool-cases (ltb ttl (int64 0))) [
    | inl e ↦ rw e refl
    | inr e ↦ elim (Bool-cases (ltb (seconds 86400) ttl)) [
      | inl f ↦ rw (e, f) refl
      | inr f ↦
          rw (e, f)
            (ap (λ c. (c, stored none)) (view-store_object s k v (expiry now ttl) now now w))
    ]
  ]

  advances-alone :
      (s : Shared p) (r : Request) (now : Time)
      → IsSound s
      → seen (advances 5 s now (asked r)) ≡ sequential (view s) r now
  unfolding advance
  advances-alone s (get_request k) now w = found-alone s k now _ w refl
  advances-alone s (set_request k v ttl) now w = admitted-alone s k v ttl now w
  advances-alone s (remove_request k) now w = ap (λ c. (c, removed)) (view-remove_key s k)

  -- The call makes its next n steps.
  abbrev pub moves_on : ℕ → ℕ → System p → System p
  moves_on zero t m = m
  moves_on (suc n) t m = moves_on n t (move t m)

  moves_on-advances :
      (n t : ℕ) (m : System p) (phase : Phase)
      → m.calls t ≡ phase
      → seen ((moves_on n t m).shared, (moves_on n t m).calls t)
        ≡ seen (advances n m.shared m.clock phase)
  unfolding move
  moves_on-advances zero t m phase h = ap (λ q. (view m.shared, q)) h
  moves_on-advances (suc n) t m phase h =
      moves_on-advances n t (move t m) (advance m.shared m.clock (m.calls t)).1
        (update-same m.calls _ refl)
      ∙ ap
          (λ q.
            seen (advances n (advance m.shared m.clock q).0 m.clock (advance m.shared m.clock q).1))
          h

  -- A call that is not interrupted does what the sequential method does: when the steps of the calls
  -- on a new cache, in whatever order, have led to a state in which a call has not begun, and the
  -- call then makes its next five steps at once with the clock standing still, what the map, the policy
  -- and the caller see is what Get, Set or Delete of the sequential cache gives.
  pub alone-sequential :
      (capacity : ℕ) (st : p.State) (requests : ℕ → Request) (clock : Time) {m : System p} (t : ℕ)
      (request : Request)
      → Run (start (new_shared capacity st) requests clock) m
      → m.calls t ≡ asked request
      → (view (moves_on 5 t m).shared, (moves_on 5 t m).calls t)
        ≡ sequential (view m.shared) request m.clock
  alone-sequential capacity st requests clock {m} t request r begun =
      moves_on-advances 5 t m (asked request) begun
      ∙ advances-alone m.shared request m.clock
          (Run-AllSound r (start-AllSound capacity st requests clock)).shared
