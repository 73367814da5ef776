-- ===== src/Eviction/Heap/Sift.antt =====
-- internal/eviction: `up`, `down` and what `Fix` and `Remove` make of them.
use distributed_caching.Prelude.{
  ℕ, zero, suc, ◌+◌, ◌*◌, ◌<◌, ◌≤◌, ◌≡◌, ◌⊎◌, inl, inr, refl, ◌∙◌, Bool, true, false, ◌&&◌, ◌==◌,
  ltb, leb, length, arith, Bool-cases,
}
use distributed_caching.Eviction.Heap.{
  Heap, slot, pay, swap, less_at, up_loop, up, smaller_child, down_loop, down, sift,
}
use distributed_caching.Eviction.Heap.Order.{
  parent, Strict, irrefl, IsHeap, Hole, InOrderAbove, InOrderBelow, Swapped, Hole-IsHeap, swap-down,
  swap-up,
}
use distributed_caching.Eviction.Heap.Swaps.{
  Placed, Shuffled, Shuffled-refl, Shuffled-trans, swap-Shuffled, slot-swap,
}

module _ {P : Type 0} where
  pub pay-swap :
      (i j : ℕ) (h : Heap P)
      → i < length h.slots
      → j < length h.slots
      → Placed h
      → Swapped i j (pay h) (pay (swap i j h))
  pay-swap i j h p q v c =
      ground
        (arith, slot-swap i j h c p q, (swap-Shuffled i j h p q v).payload (slot (swap i j h) c))

module _ {P : Type 0} (less : P → P → Bool) where
  -- The first n positions are in order again, with the same entries, and the others are as they were.
  pub record Restored (n : ℕ) (h h' : Heap P) : Type 0 where
    pub shuffled : Shuffled h h'
    pub ordered : IsHeap less n (pay h')
    pub beyond : (c : ℕ) → n ≤ c → slot h' c ≡ slot h c

  -- One exchange within the first n positions comes before.
  Restored-swap :
      (n i j : ℕ) (h h' : Heap P)
      → i < n
      → j < n
      → n ≤ length h.slots
      → Placed h
      → Restored n (swap i j h) h'
      → Restored n h h'
  Restored-swap n i j h h' p q le v r = record {
    shuffled =
        Shuffled-trans h (swap i j h) h' (swap-Shuffled i j h (omega arith) (omega arith) v)
          r.shuffled;
    ordered = r.ordered;
    beyond = λ c l. r.beyond c l ∙ ground (arith, slot-swap i j h c);
  }

  module _ (o : Strict less) where
    up_loop_restores :
        (fuel n j : ℕ) (h : Heap P)
        → j < fuel
        → j < n
        → n ≤ length h.slots
        → Placed h
        → Hole less n (pay h) j
        → InOrderBelow less n (pay h) j
        → Restored n h (up_loop less fuel j h)
    unfolding up_loop
    up_loop_restores zero n j h f p le v hole b = absurd (omega arith)
    up_loop_restores (suc fuel) n j h f p le v hole b = elim (Bool-cases (parent j == j)) [
      | inl root ↦ rw root (record {
        shuffled = Shuffled-refl h v;
        ordered = Hole-IsHeap less n (pay h) j hole (λ q. absurd (ground arith)) b;
        beyond = λ c l. refl;
      })
      | inr inner ↦ elim (Bool-cases (less_at less h j (parent j))) [
        | inr settled ↦
            rw (inner, settled)
              (record {
                shuffled = Shuffled-refl h v;
                ordered = Hole-IsHeap less n (pay h) j hole (λ q. settled) b;
                beyond = λ c l. refl;
              })
        | inl below ↦
            let pos : 0 < j = ground arith in
            let pj : parent j < length h.slots = omega arith in
            let moved =
              swap-up less o n (pay h) (pay (swap (parent j) j h)) j
                (pay-swap (parent j) j h pj (omega arith) v) hole b pos p below in
            let s = swap-Shuffled (parent j) j h pj (omega arith) v in
            rw (inner, below)
              (Restored-swap n (parent j) j h _ (omega arith) p le v (
                up_loop_restores fuel n (parent j) (swap (parent j) j h) (omega arith) (omega arith)
                  (omega (arith, s.size)) s.placed moved.0 moved.1))
      ]
    ]

    pub up_restores :
        (n j : ℕ) (h : Heap P)
        → j < n
        → n ≤ length h.slots
        → Placed h
        → Hole less n (pay h) j
        → InOrderBelow less n (pay h) j
        → Restored n h (up less j h)
    unfolding up
    up_restores n j h p le v hole b = up_loop_restores (j + 1) n j h (omega arith) p le v hole b

    -- `m` is a child of `i`, less than its sibling or alike.
    record IsSmallerChild (n i m : ℕ) (k : ℕ → P) : Type 0 where
      inside : m < n
      positive : 0 < m
      child : parent m ≡ i
      least : (c : ℕ) → 0 < c → c < n → parent c ≡ i → less (k c) (k m) ≡ false
      later : i < m

    smaller_child-IsSmallerChild :
        (i n : ℕ) (h : Heap P)
        → 2 * i + 1 < n
        → IsSmallerChild n i (smaller_child less i n h) (pay h)
    unfolding smaller_child
    smaller_child-IsSmallerChild i n h le =
        elim (Bool-cases (ltb (2 * i + 1 + 1) n && less_at less h (2 * i + 1 + 1) (2 * i + 1))) [
          | inl right ↦ rw right (record {
            inside = ground arith;
            positive = omega arith;
            child = omega arith;
            least = λ c p q r. elim (one_of c (omega arith)) [
              | inl e ↦ rw e (o.asym (pay h (2 * i + 1 + 1)) (pay h (2 * i + 1)) (ground arith))
              | inr e ↦ rw e (irrefl less o (pay h (2 * i + 1 + 1)))
            ];
            later = omega arith;
          })
          | inr left ↦ rw left (record {
            inside = le;
            positive = omega arith;
            child = omega arith;
            least = λ c p q r. elim (one_of c (omega arith)) [
              | inl e ↦ rw e (irrefl less o (pay h (2 * i + 1)))
              | inr e ↦ rw e (ground arith)
            ];
            later = omega arith;
          })
        ]
      where
        one_of :
            (c : ℕ) → (2 * i + 1 ≤ c) × (c ≤ 2 * i + 1 + 1) → (c ≡ 2 * i + 1) ⊎ (c ≡ 2 * i + 1 + 1)
        one_of c b = ground arith

    -- From a position whose upper edge is in order, `down` ends with all in order.
    down_loop_restores :
        (fuel n i : ℕ) (h : Heap P)
        → n < fuel + i
        → i < n
        → n ≤ length h.slots
        → Placed h
        → Hole less n (pay h) i
        → InOrderAbove less (pay h) i
        → Restored n h (down_loop less fuel i n h).0
    unfolding down_loop
    down_loop_restores zero n i h f p le v hole a = absurd (omega arith)
    down_loop_restores (suc fuel) n i h f p le v hole a = elim (Bool-cases (leb n (2 * i + 1))) [
      | inl leaf ↦ rw leaf (record {
        shuffled = Shuffled-refl h v;
        ordered = Hole-IsHeap less n (pay h) i hole a (λ c q r t. absurd (ground arith));
        beyond = λ c l. refl;
      })
      | inr inner ↦
          let m = smaller_child less i n h in
          let s = smaller_child-IsSmallerChild i n h (ground arith) in
          elim (Bool-cases (less_at less h m i)) [
            | inr settled ↦
                rw (inner, settled)
                  (record {
                    shuffled = Shuffled-refl h v;
                    ordered = Hole-IsHeap less n (pay h) i hole a (λ c q r t.
                        o.trans (pay h i) (pay h m) (pay h c) settled (s.least c q r t));
                    beyond = λ c l. refl;
                  })
            | inl below ↦
                let moved =
                  swap-down less o n (pay h) (pay (swap i m h)) i m
                    (pay-swap i m h (omega arith) (omega (arith, s.inside)) v) hole s.positive
                    s.child p below s.least s.inside in
                let t = swap-Shuffled i m h (omega arith) (omega (arith, s.inside)) v in
                rw (inner, below)
                  (Restored-swap n i m h _ p s.inside le v (
                    down_loop_restores fuel n m (swap i m h) (omega (arith, s.later)) s.inside
                      (omega (arith, t.size)) t.placed moved.0 moved.1))
          ]
    ]

    down_loop-later : (fuel n i : ℕ) (h : Heap P) → i ≤ (down_loop less fuel i n h).1
    unfolding down_loop smaller_child
    down_loop-later zero n i h = omega arith
    down_loop-later (suc fuel) n i h = ground (
      arith,
      down_loop-later fuel n (smaller_child less i n h) (swap i (smaller_child less i n h) h),
    )

    -- From any hole, `down` does not move the entry, which is then in order with its children, or it
    -- ends with all in order.
    down_moves :
        (fuel n i : ℕ) (h : Heap P)
        → n < suc fuel + i
        → i < n
        → n ≤ length h.slots
        → Placed h
        → Hole less n (pay h) i
        → ((down_loop less (suc fuel) i n h ≡ (h, i)) × InOrderBelow less n (pay h) i)
          ⊎ ((ltb i (down_loop less (suc fuel) i n h).1 ≡ true)
              × Restored n h (down_loop less (suc fuel) i n h).0)
    unfolding down_loop
    down_moves fuel n i h f p le v hole = elim (Bool-cases (leb n (2 * i + 1))) [
      | inl leaf ↦ inl (rw leaf refl, λ c q r t. absurd (ground arith))
      | inr inner ↦
          let m = smaller_child less i n h in
          let s = smaller_child-IsSmallerChild i n h (ground arith) in
          elim (Bool-cases (less_at less h m i)) [
            | inr settled ↦ inl (
              rw (inner, settled) refl,
              λ c q r t. o.trans (pay h i) (pay h m) (pay h c) settled (s.least c q r t),
            )
            | inl below ↦
                let moved =
                  swap-down less o n (pay h) (pay (swap i m h)) i m
                    (pay-swap i m h (omega arith) (omega (arith, s.inside)) v) hole s.positive
                    s.child p below s.least s.inside in
                let t = swap-Shuffled i m h (omega arith) (omega (arith, s.inside)) v in
                inr (
                  rw (inner, below)
                      (ground (arith, down_loop-later fuel n m (swap i m h), s.later)),
                  rw (inner, below)
                      (Restored-swap n i m h _ p s.inside le v (
                        down_loop_restores fuel n m (swap i m h) (omega (arith, s.later)) s.inside
                          (omega (arith, t.size)) t.placed moved.0 moved.1)),
                )
          ]
    ]

    -- Wherever one entry is out of place, the sift puts the first n positions in order.
    pub sift_restores :
        (n i : ℕ) (h : Heap P)
        → i < n
        → n ≤ length h.slots
        → Placed h
        → Hole less n (pay h) i
        → Restored n h (sift less i n h)
    unfolding sift down
    sift_restores n i h p le v hole = elim (down_moves n n i h (omega arith) p le v hole) [
      | inl (still, b) ↦
          let no_move : ltb i i ≡ false = ground arith in
          rw (still, no_move) (up_restores n i h p le v hole b)
      | inr (moved, r) ↦ rw moved r
    ]
