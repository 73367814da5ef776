-- ===== src/Eviction/Indexed/Pushes.antt =====
-- internal/eviction: a new key of LFU or TTLOnly.
use distributed_caching.Prelude.{
  ℕ, ◌+◌, ◌-◌, ◌<◌, ◌≡◌, ◌∙◌, inl, inr, Bool, none, some, [], ◌∷◌, ◌==◌, if◌then◌else◌, Str,
  str_key, same, length, arith, Option-cases, length-append,
}
use distributed_caching.Prelude.Dict.{lookup, insert, lookup-insert}
use distributed_caching.Eviction.Heap.{Addr, slot, pay, push_last, push}
use distributed_caching.Eviction.Heap.Order.{parent, Strict}
use distributed_caching.Eviction.Heap.Swaps.{get_or-append}
use distributed_caching.Eviction.Heap.Sift.{up_restores}
use distributed_caching.Eviction.Indexed.{Indexed, alloc, insert_entry}
use distributed_caching.Eviction.Indexed.Shape.{Linked, Shape, Restored-Shape, view}

module _ {P : Type 0} (less : P → P → Bool) (key : Str) (p : P) (s : Indexed P) where
  -- The entry at the end of the slice, before it moves up.
  abbrev pushed : Indexed P
  pushed = record {
    heap = push_last s.fresh (alloc s.fresh key p s.heap);
    entries = insert key s.fresh s.entries;
    fresh = s.fresh + 1;
  }

  size : length pushed.heap.slots ≡ length s.heap.slots + 1
  unfolding push_last
  size = length-append s.heap.slots (s.fresh ∷ [])

  slot-pushed :
      (c : ℕ)
      → c < length s.heap.slots + 1
      → slot pushed.heap c ≡ (if c == length s.heap.slots then s.fresh else slot s.heap c)
  unfolding push_last
  slot-pushed c l = get_or-append s.heap.slots s.fresh c 0 l

  objs-pushed :
      (x : Addr)
      → pushed.heap.objs x ≡ (
          if x == s.fresh
          then record { key = key; payload = p; index = some (length s.heap.slots) }
          else s.heap.objs x)
  unfolding push_last
  objs-pushed x = ground arith

  pushed-Linked : Linked s → lookup key s.entries ≡ none → Linked pushed
  pushed-Linked v absent = record {
    placed = λ i l.
        ground
          (arith, size, slot-pushed i, objs-pushed (slot pushed.heap i), v.placed i, v.allocated i);
    mapped = λ k a e. elim (str_key.dec key k) [
      | yes q ↦
          let here : a ≡ s.fresh = ground (arith, lookup-insert key k s.fresh s.entries) in
          (
            (
              length s.heap.slots,
              ground (arith, objs-pushed a),
              omega (arith, size),
              ground (arith, slot-pushed (length s.heap.slots)),
            ),
            ground (arith, objs-pushed a),
          )
      | no q ↦
          let m = v.mapped k a (ground (arith, lookup-insert key k s.fresh s.entries)) in
          let old = v.allocated m.0.0 m.0.2 in
          let l = m.0.2 in
          let t = m.0.3 in
          (
            (
              m.0.0,
              ground (arith, objs-pushed a, m.0.1),
              omega (arith, size, m.0.2),
              ground (arith, slot-pushed m.0.0),
            ),
            ground (arith, objs-pushed a, m.1),
          )
    ];
    listed = λ i l. ground (
      arith,
      size,
      slot-pushed i,
      objs-pushed (slot pushed.heap i),
      v.listed i,
      v.allocated i,
      lookup-insert key (pushed.heap.objs (slot pushed.heap i)).key s.fresh s.entries,
    );
    allocated = λ i l. ground (arith, size, slot-pushed i, v.allocated i);
  }

  pushed-view : (k : Str) → Linked s → view pushed k ≡ (if same key k then some p else view s k)
  pushed-view k v = elim (Option-cases (lookup k s.entries)) [
    | inl e ↦ ground (arith, lookup-insert key k s.fresh s.entries, objs-pushed s.fresh)
    | inr (b, e) ↦
        let m = (v.mapped k b e).0 in
        ground (
          arith,
          lookup-insert key k s.fresh s.entries,
          objs-pushed s.fresh,
          objs-pushed b,
          v.allocated m.0,
          m.2,
          m.3,
        )
  ]

  -- A new key enters the map and the heap.
  pub insert_entry-Shape :
      (o : Strict less)
      → Shape less s
      → lookup key s.entries ≡ none
      → Shape less (insert_entry less key p s)
        × ((k : Str)
            → view (insert_entry less key p s) k ≡ (if same key k then some p else view s k))
  unfolding insert_entry push
  insert_entry-Shape o v absent =
      let linked = pushed-Linked v.linked absent in
      let pay-pushed : (c : ℕ) → c < length s.heap.slots → pay pushed.heap c ≡ pay s.heap c = λ c l.
        ground (arith, slot-pushed c, objs-pushed (slot pushed.heap c), v.linked.allocated c) in
      let r =
        up_restores less o (length pushed.heap.slots) (length pushed.heap.slots - 1) pushed.heap
          (omega (arith, size)) (omega arith) linked.placed
          (record {
            edges = λ c q l ne np.
                ground (arith, size, pay-pushed c, pay-pushed (parent c), v.ordered c);
            bridged = λ c q l e pos. absurd (omega (arith, size));
          })
          (λ c q l e. absurd (omega (arith, size))) in
      let done = Restored-Shape less pushed _ linked r in
      (done.0, λ k. done.1 k ∙ pushed-view k v.linked)
