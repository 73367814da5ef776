-- ===== src/Cache/Concurrent/Replies.antt =====
-- internal/cache/cache.go: what a read answers while other calls run, against what the map held
-- during the read.
use distributed_caching.Prelude.{
  ℕ, ◌≡◌, refl, sym, ap, past, ◌∙◌, subst, true, false, Bool, Option, none, some, ◌⊎◌, inl, inr,
  Str, Time, str_key, ℕ_discrete, if◌then◌else◌,
}
use distributed_caching.Prelude.Dict.{lookup}
use distributed_caching.Policy.{EvictionPolicy}
use distributed_caching.Cache.{is_expired, CacheEntry}
use distributed_caching.Cache.Concurrent.{
  Addr, view, new_shared, Phase, Request, get_request, set_request, remove_request, asked, found,
  timed, old, live, touched, got, storing, stored, removed, advance, look_up, System, start, move,
  Step, moves, ticks, Run, here, next,
}
use distributed_caching.Cache.Concurrent.Deref.{update-same, update-other}
use distributed_caching.Cache.Concurrent.View.{lookup-view}
use distributed_caching.Cache.Concurrent.Effect.{item, Points, Effect, advance-Effect, Effect-refl}
use distributed_caching.Cache.Concurrent.Safety.{
  AllSound, Refs, next-Refs, Run-AllSound, start-AllSound,
}

module _ {p : EvictionPolicy} where
  -- What the cache holds under a key at an instant.
  abbrev pub Holds : Str → CacheEntry → System p → Type 0
  Holds k e m = lookup k (view m.shared).entries ≡ some e

  abbrev pub HoldsValue : Str → Str → System p → Type 0
  HoldsValue k v m = (e : CacheEntry) × Holds k e m × (e.value ≡ v)

  -- An entry that has expired by the given time, or has not.
  abbrev pub HoldsAged : Str → Time → Bool → System p → Type 0
  HoldsAged k now b m = (e : CacheEntry) × Holds k e m × (is_expired e now ≡ b)

  abbrev pub Absent : Str → System p → Type 0
  Absent k m = lookup k (view m.shared).entries ≡ none

  -- At some instant of the run the predicate holds.
  abbrev pub During : (System p → Type 0) → {m n : System p} → Run m n → Type 0
  During P {m} here = P m
  During P (next {n' = n'} r st) = During P r ⊎ P n'

  During-end : (P : System p → Type 0) {m n : System p} (r : Run m n) → P n → During P r
  During-end P here h = h
  During-end P (next r st) h = inr h

  During-map :
      (P Q : System p → Type 0) {m n : System p} (r : Run m n)
      → ((s : System p) → P s → Q s)
      → During P r
      → During Q r
  During-map P Q here f h = f _ h
  During-map P Q (next {n' = n'} r st) f (inl h) = inl (During-map P Q r f h)
  During-map P Q (next {n' = n'} r st) f (inr h) = inr (f n' h)

  -- The clock showed a time in the run, and at some instant of the run the key had an entry that
  -- has expired by this time, or has not.
  abbrev pub Tested : Str → Bool → {m n : System p} → Run m n → Type 0
  Tested k b r = (now : Time) × During (λ i. i.clock ≡ now) r × During (HoldsAged k now b) r

  -- What makes an answer of `Get` right after a run.
  abbrev pub Answers : Str → Option Str → {m n : System p} → Run m n → Type 0
  Answers k (some v) r = During (HoldsValue k v) r × Tested k false r
  Answers k none r = During (Absent k) r ⊎ Tested k true r

  -- The entry that a read holds was that of the key, with its present value and expiry time.
  abbrev Kept : Str → Addr → {m n : System p} → Run m n → Type 0
  Kept k a {n = n} r = (e : CacheEntry) × During (Holds k e) r × (item e ≡ item (n.shared.objs a))

  abbrev Progress : Str → {m n : System p} → Run m n → Phase → Type 0
  Progress k r (asked (get_request j)) = j ≡ k
  Progress k r (asked (set_request j v ttl)) = ⊥
  Progress k r (asked (remove_request j)) = ⊥
  Progress k r (found j a) = (j ≡ k) × Kept k a r
  Progress k r (timed j a now) = (j ≡ k) × Kept k a r × During (λ i. i.clock ≡ now) r
  Progress k r (old j) = Answers k none r
  Progress k r (live j a) = (j ≡ k) × Kept k a r × Tested k false r
  Progress k r (touched j a) = (j ≡ k) × Kept k a r × Tested k false r
  Progress k r (got x) = Answers k x r
  Progress k r (storing j v x at_call) = ⊥
  Progress k r (stored x) = ⊥
  Progress k r removed = ⊥

  now-held :
      {m n : System p} (k : Str) (a : Addr) (r : Run m n)
      → lookup k n.shared.entries ≡ some a
      → Kept k a r
  now-held {m} {n} k a r h =
      (n.shared.objs a, During-end (Holds k (n.shared.objs a)) r (lookup-view n.shared k h), refl)

  now-absent :
      {m n : System p} (k : Str) (r : Run m n) → lookup k n.shared.entries ≡ none → Answers k none r
  now-absent {m} {n} k r h = inl (During-end (Absent k) r (lookup-view n.shared k h))

  Kept-aged :
      {m n : System p} (k : Str) (a : Addr) (now : Time) (b : Bool) (r : Run m n)
      → is_expired (n.shared.objs a) now ≡ b
      → Kept k a r
      → During (λ i. i.clock ≡ now) r
      → Tested k b r
  unfolding is_expired
  Kept-aged k a now b r h (e, held, same) read = (
    now,
    read,
    During-map (Holds k e) (HoldsAged k now b) r (λ s g. (e, g, ap (λ i. past i.1 now) same ∙ h))
        held,
  )

  Kept-value :
      {m n : System p} (k : Str) (a : Addr) (r : Run m n)
      → Kept k a r
      → During (HoldsValue k (n.shared.objs a).value) r
  Kept-value {m} {n} k a r (e, held, same) =
      During-map (Holds k e) (HoldsValue k (n.shared.objs a).value) r
        (λ s g. (e, g, ap (λ i. i.0) same)) held

  Kept-step :
      {m n n' : System p} (k : Str) (a : Addr) (r : Run m n) (st : Step n n')
      → Effect n.shared n'.shared k a
      → Kept k a r
      → Kept k a (next r st)
  Kept-step k a r st f (e, held, same) = elim f.item [
    | inl g ↦ (e, inl held, same ∙ sym g)
    | inr g ↦ now-held k a (next r st) g
  ]

  Tested-step :
      {m n n' : System p} (k : Str) (b : Bool) (r : Run m n) (st : Step n n')
      → Tested k b r
      → Tested k b (next r st)
  Tested-step k b r st (now, read, held) = (now, inl read, inl held)

  Answers-step :
      {m n n' : System p} (k : Str) (x : Option Str) (r : Run m n) (st : Step n n')
      → Answers k x r
      → Answers k x (next r st)
  Answers-step k none r st (inl h) = inl (inl h)
  Answers-step k none r st (inr h) = inr (Tested-step k true r st h)
  Answers-step k (some v) r st (h, t) = (inl h, Tested-step k false r st t)

  Step-Effect :
      {n n' : System p} (k : Str) (a : Addr)
      → Step n n'
      → AllSound n
      → Points n.shared k a
      → Effect n.shared n'.shared k a
  unfolding move
  Step-Effect {n} k a (moves t) w h = advance-Effect n.shared n.clock (n.calls t) k a w.shared h
  Step-Effect {n} k a (ticks now) w h = Effect-refl n.shared k a h

  Kept-next :
      {m n n' : System p} (k j : Str) (a : Addr) (r : Run m n) (st : Step n n')
      → AllSound n
      → Points n.shared j a
      → j ≡ k
      → Kept k a r
      → Kept k a (next r st)
  Kept-next {m} {n} k j a r st w h e kept =
      Kept-step k a r st (Step-Effect k a st w (subst (λ i. Points n.shared i a) e h)) kept

  -- Whatever step comes, the read is where it was.
  Progress-step :
      {m n n' : System p} (k : Str) (phase : Phase) (r : Run m n) (st : Step n n')
      → AllSound n
      → Refs n.shared phase
      → Progress k r phase
      → Progress k (next r st) phase
  Progress-step k (asked (get_request j)) r st w h q = q
  Progress-step k (found j a) r st w h (e, kept) = (e, Kept-next k j a r st w h e kept)
  Progress-step k (timed j a now) r st w h (e, kept, read) =
      (e, Kept-next k j a r st w h e kept, inl read)
  Progress-step k (old j) r st w h q = Answers-step k none r st q
  Progress-step k (live j a) r st w h (e, kept, t) =
      (e, Kept-next k j a r st w h e kept, Tested-step k false r st t)
  Progress-step k (touched j a) r st w h (e, kept, t) =
      (e, Kept-next k j a r st w h e kept, Tested-step k false r st t)
  Progress-step k (got x) r st w h q = Answers-step k x r st q
  Progress-step k (asked (set_request j v ttl)) r st w h q = absurd q
  Progress-step k (asked (remove_request j)) r st w h q = absurd q
  Progress-step k (storing j v x at_call) r st w h q = absurd q
  Progress-step k (stored x) r st w h q = absurd q
  Progress-step k removed r st w h q = absurd q

  look_up-Progress :
      {m : System p} (n : System p) (k j : Str) (x : Option Addr) (r : Run m n)
      → j ≡ k
      → lookup j n.shared.entries ≡ x
      → Progress k r (look_up j x)
  look_up-Progress n k j none r e h =
      now-absent k r (subst (λ i. lookup i n.shared.entries ≡ none) e h)
  look_up-Progress n k j (some a) r e h =
      (e, now-held k a r (subst (λ i. lookup i n.shared.entries ≡ some a) e h))

  test-Progress :
      {m : System p} (n : System p) (k j : Str) (a : Addr) (now : Time) (b : Bool) (r : Run m n)
      → is_expired (n.shared.objs a) now ≡ b
      → (j ≡ k) × Kept k a r × During (λ i. i.clock ≡ now) r
      → Progress k r (if b then old j else live j a)
  test-Progress n k j a now true r e (same, kept, read) = inr (Kept-aged k a now true r e kept read)
  test-Progress n k j a now false r e (same, kept, read) =
      (same, kept, Kept-aged k a now false r e kept read)

  -- The read makes its own step.
  next-Progress :
      {m : System p} (n : System p) (k : Str) (phase : Phase) (r : Run m n)
      → Progress k r phase
      → Progress k r (advance n.shared n.clock phase).1
  unfolding advance
  next-Progress n k (asked (get_request j)) r q = look_up-Progress n k j _ r q refl
  next-Progress n k (found j a) r (e, kept) = (e, kept, During-end (λ i. i.clock ≡ n.clock) r refl)
  next-Progress n k (timed j a now) r q = test-Progress n k j a now _ r refl q
  next-Progress n k (old j) r q = q
  next-Progress n k (live j a) r q = q
  next-Progress n k (touched j a) r (e, kept, t) = (Kept-value k a r kept, t)
  next-Progress n k (got x) r q = q
  next-Progress n k (asked (set_request j v ttl)) r q = absurd q
  next-Progress n k (asked (remove_request j)) r q = absurd q
  next-Progress n k (storing j v x at_call) r q = absurd q
  next-Progress n k (stored x) r q = absurd q
  next-Progress n k removed r q = absurd q

  move-Progress :
      {m n n' : System p} (k : Str) (t : ℕ) (r : Run m n) (st : Step n n')
      → AllSound n
      → Progress k r (n.calls t)
      → Progress k (next r st) (n'.calls t)
  unfolding move
  move-Progress {m} {n} k t r (moves u) w q = elim (ℕ_discrete u t) [
    | yes e ↦
        let begun : Progress k r (n.calls u) = subst (λ i. Progress k r (n.calls i)) (sym e) q in
        subst (Progress k (next r (moves u))) (sym (update-same n.calls _ e)) (
          Progress-step k (advance n.shared n.clock (n.calls u)).1 r (moves u) w
            (next-Refs n.shared n.clock (n.calls u) w.shared (w.refs u))
            (next-Progress n k (n.calls u) r begun))
    | no d ↦
        subst (Progress k (next r (moves u))) (sym (update-other n.calls _ d))
          (Progress-step k (n.calls t) r (moves u) w (w.refs t) q)
  ]
  move-Progress {m} {n} k t r (ticks now) w q =
      Progress-step k (n.calls t) r (ticks now) w (w.refs t) q

  Run-Progress :
      {m n : System p} (k : Str) (t : ℕ)
      → AllSound m
      → m.calls t ≡ asked (get_request k)
      → (r : Run m n) → Progress k r (n.calls t)
  Run-Progress {m} k t w h here = subst (Progress k {m = m} {n = m} here) (sym h) refl
  Run-Progress k t w h (next r st) =
      move-Progress k t r st (Run-AllSound r w) (Run-Progress k t w h r)

  -- However the steps of the calls of Get, Set and Delete on a new cache come: when a call of Get that
  -- had not begun at one instant has returned at a later one, what it answers was so in the run
  -- between the two. If it returned a value, the cache at some instant held an entry of the key with
  -- this value, and at some instant one that had not expired by a time that the clock showed in the
  -- run. If it returned a miss, the cache at some instant held no entry of the key, or at some
  -- instant one that had expired by a time that the clock showed in the run.
  pub get_concurrent :
      (capacity : ℕ) (st : p.State) (requests : ℕ → Request) (clock : Time) {m n : System p} (t : ℕ)
      (k : Str) (answer : Option Str)
      → Run (start (new_shared capacity st) requests clock) m
      → m.calls t ≡ asked (get_request k)
      → (r : Run m n) → n.calls t ≡ got answer
      → Answers k answer r
  get_concurrent capacity st requests clock {m} {n} t k answer before begun r done =
      subst (Progress k r) done
        (Run-Progress k t (Run-AllSound before (start-AllSound capacity st requests clock)) begun r)
