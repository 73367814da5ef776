-- ===== src/Eviction/Indexed/Removes.antt =====
-- internal/eviction: a key of LFU or TTLOnly that goes.
use distributed_caching.Prelude.{
  ℕ, ◌+◌, ◌-◌, ◌<◌, ◌≡◌, ◌≢◌, ap, sym, ◌∙◌, inl, inr, Bool, none, some, ◌==◌, if◌then◌else◌, Str,
  str_key, same, length, arith, Option-cases, Bool-cases,
}
use distributed_caching.Prelude.Dict.{lookup, delete, lookup-delete}
use distributed_caching.Eviction.Heap.{Addr, Heap, slot, pay, swap, pop_last, remove, sift}
use distributed_caching.Eviction.Heap.Order.{parent, Strict, IsHeap, IsHeap-Hole}
use distributed_caching.Eviction.Heap.Swaps.{
  Placed, Shuffled, Shuffled-refl, Shuffled-trans, swap-Shuffled, slot-swap, get_or-take,
  length-take,
}
use distributed_caching.Eviction.Heap.Sift.{sift_restores, pay-swap}
use distributed_caching.Eviction.Indexed.{Indexed, drop_entry}
use distributed_caching.Eviction.Indexed.Shape.{
  Linked, Shape, Linked-Shuffled, view, view-Shuffled, slot-injective,
}

module _ {P : Type 0} (less : P → P → Bool) where
  -- The entry to be removed stands last, and the others are in order.
  record Ready (h h' : Heap P) (a : Addr) (n : ℕ) : Type 0 where
    shuffled : Shuffled h h'
    ordered : IsHeap less n (pay h')
    last : slot h' n ≡ a

  abbrev to_end : ℕ → Heap P → Heap P
  to_end i h =
      if length h.slots - 1 == i
      then h
      else sift less i (length h.slots - 1) (swap i (length h.slots - 1) h)

  to_end-Ready :
      (o : Strict less) (h : Heap P) (i : ℕ)
      → Placed h
      → IsHeap less (length h.slots) (pay h)
      → i < length h.slots
      → Ready h (to_end i h) (slot h i) (length h.slots - 1)
  to_end-Ready o h i v ordered l = elim (Bool-cases (length h.slots - 1 == i)) [
    | inl last ↦ rw last (record {
      shuffled = Shuffled-refl h v;
      ordered = λ c p q. ordered c p (omega arith);
      last = ap (slot h) (ground arith);
    })
    | inr other ↦
        let n = length h.slots - 1 in
        let inside : i < n = ground arith in
        let s = swap-Shuffled i n h l (omega arith) v in
        let hole =
          IsHeap-Hole less o n (pay h) (pay (swap i n h)) i (λ c p q. ordered c p (omega arith))
            (λ c q ne. ground (arith, pay-swap i n h l (omega arith) v c)) in
        let r =
          sift_restores less o n i (swap i n h) inside (omega (arith, s.size)) s.placed hole in
        rw other (record {
          shuffled = Shuffled-trans h (swap i n h) _ s r.shuffled;
          ordered = r.ordered;
          last = r.beyond n (omega arith) ∙ ground (arith, slot-swap i n h n);
        })
  ]

  module _ (key : Str) (s : Indexed P) (a : Addr) (n : ℕ) (size : length s.heap.slots ≡ n + 1)
      (v : Linked s) (found : lookup key s.entries ≡ some a) (last : slot s.heap n ≡ a) where
    abbrev popped : Indexed P
    popped = record s { heap = pop_last s.heap; entries = delete key s.entries }

    size-popped : length popped.heap.slots ≡ n
    unfolding pop_last
    size-popped =
        let e : length s.heap.slots - 1 ≡ n = omega (arith, size) in
        rw e (length-take n s.heap.slots (omega (arith, size)))

    slot-popped : (c : ℕ) → c < n → slot popped.heap c ≡ slot s.heap c
    unfolding pop_last
    slot-popped c l =
        let e : length s.heap.slots - 1 ≡ n = omega (arith, size) in
        rw e (get_or-take n s.heap.slots c 0 l)

    objs-popped : (x : Addr) → x ≢ a → popped.heap.objs x ≡ s.heap.objs x
    unfolding pop_last
    objs-popped x ne = ground (arith, size, last)

    not-last : (c : ℕ) → c < n → slot s.heap c ≢ a
    not-last c l e = omega (
      arith,
      slot-injective s.heap c n v.placed (omega (arith, size)) (omega (arith, size)) (e ∙ sym last),
    )

    popped-Linked : Linked popped
    popped-Linked = record {
      placed = λ i l. ground (
        arith,
        size-popped,
        size,
        slot-popped i,
        objs-popped (slot s.heap i),
        not-last i,
        v.placed i,
      );
      mapped = λ k b e.
          let m = v.mapped k b (ground (arith, lookup-delete key k s.entries)) in
          let other : b ≢ a =
            λ q. ground (arith, m.1, (v.mapped key a found).1, lookup-delete key k s.entries) in
          (
            (
              m.0.0,
              ground (arith, objs-popped b, m.0.1),
              ground (arith, size-popped, size, m.0.2, m.0.3, last),
              ground (arith, slot-popped m.0.0, size, m.0.2, m.0.3, last),
            ),
            ground (arith, objs-popped b, m.1),
          );
      listed = λ i l. ground (
        arith,
        size-popped,
        size,
        slot-popped i,
        objs-popped (slot s.heap i),
        not-last i,
        v.listed i,
        lookup-delete key (s.heap.objs (slot s.heap i)).key s.entries,
      );
      allocated = λ i l. ground (arith, size-popped, size, slot-popped i, v.allocated i);
    }

    popped-view : (k : Str) → view popped k ≡ (if same key k then none else view s k)
    popped-view k = elim (Option-cases (lookup k s.entries)) [
      | inl e ↦ ground (arith, lookup-delete key k s.entries)
      | inr (b, e) ↦ ground (
        arith,
        lookup-delete key k s.entries,
        objs-popped b,
        (v.mapped k b e).1,
        (v.mapped key a found).1,
      )
    ]

    popped-ordered :
        IsHeap less n (pay s.heap) → IsHeap less (length popped.heap.slots) (pay popped.heap)
    popped-ordered h =
        rw size-popped (λ c p q. ground (arith, same_pay c, same_pay (parent c), h c))
      where
        same_pay : (c : ℕ) → c < n → pay popped.heap c ≡ pay s.heap c
        same_pay c l = ground (arith, slot-popped c, objs-popped (slot s.heap c), not-last c)

  -- A known key leaves the map and the heap.
  pub drop_entry-Shape :
      (o : Strict less) (key : Str) (s : Indexed P) {a : Addr}
      → Shape less s
      → lookup key s.entries ≡ some a
      → Shape less (drop_entry less key s)
        × ((k : Str) → view (drop_entry less key s) k ≡ (if same key k then none else view s k))
  unfolding drop_entry remove
  drop_entry-Shape o key s {a} v found =
      let (i, at, l, q) = (v.linked.mapped key a found).0 in
      let h = to_end i s.heap in
      let n = length s.heap.slots - 1 in
      let r = to_end-Ready o s.heap i v.linked.placed v.ordered l in
      let s1 : Indexed P = record s { heap = h } in
      let linked = Linked-Shuffled s h v.linked r.shuffled in
      let size : length h.slots ≡ n + 1 = omega (arith, r.shuffled.size) in
      let last : slot h n ≡ a = r.last ∙ q in
      rw (found, drop_entry, at)
        (
          record {
            linked = popped-Linked key s1 a n size linked found last;
            ordered = popped-ordered key s1 a n size linked found last r.ordered;
          },
          λ k.
              popped-view key s1 a n size linked found last k
              ∙ ap (λ x. if same key k then none else x) (view-Shuffled s h k r.shuffled),
        )
