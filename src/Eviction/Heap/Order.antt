-- ===== src/Eviction/Heap/Order.antt =====
-- internal/eviction: the order of a heap, as a property of the payloads at its first n positions.
use distributed_caching.Prelude.{
  ℕ, zero, suc, ◌-◌, ◌/◌, ◌<◌, ◌≡◌, ◌≢◌, Bool, true, false, ◌==◌, if◌then◌else◌, arith,
}

abbrev pub parent : ℕ → ℕ
parent c = (c - 1) / 2

-- What the heaps ask of `Less`: it is a strict order in which what neither is less is alike.
pub record Strict {P : Type 0} (less : P → P → Bool) : Type 0 where
  pub asym : (x y : P) → less x y ≡ true → less y x ≡ false
  pub trans : (x y z : P) → less y x ≡ false → less z y ≡ false → less z x ≡ false

-- `k'` is `k` with two positions exchanged.
abbrev pub Swapped : {P : Type 0} → ℕ → ℕ → (ℕ → P) → (ℕ → P) → Type 0
Swapped i j k k' = (c : ℕ) → k' c ≡ (if c == j then k i else if c == i then k j else k c)

module _ {P : Type 0} (less : P → P → Bool) where
  -- No entry is less than its parent.
  abbrev pub IsHeap : ℕ → (ℕ → P) → Type 0
  IsHeap n k = (c : ℕ) → 0 < c → c < n → less (k c) (k (parent c)) ≡ false

  -- Only the edges at `i` may be out of order, and none is across it.
  pub record Hole (n : ℕ) (k : ℕ → P) (i : ℕ) : Type 0 where
    pub edges : (c : ℕ) → 0 < c → c < n → c ≢ i → parent c ≢ i → less (k c) (k (parent c)) ≡ false
    pub bridged : (c : ℕ) → 0 < c → c < n → parent c ≡ i → 0 < i → less (k c) (k (parent i)) ≡ false

  abbrev pub InOrderAbove : (ℕ → P) → ℕ → Type 0
  InOrderAbove k i = 0 < i → less (k i) (k (parent i)) ≡ false

  abbrev pub InOrderBelow : ℕ → (ℕ → P) → ℕ → Type 0
  InOrderBelow n k i = (c : ℕ) → 0 < c → c < n → parent c ≡ i → less (k c) (k i) ≡ false

  pub Hole-IsHeap :
      (n : ℕ) (k : ℕ → P) (i : ℕ) → Hole n k i → InOrderAbove k i → InOrderBelow n k i → IsHeap n k
  Hole-IsHeap n k i h a b c p q = ground (arith, h.edges c, b c)

  module _ (o : Strict less) where
    pub irrefl : (x : P) → less x x ≡ false
    irrefl x = ground (arith, o.asym x x)

    -- Whatever takes the place of one entry leaves one hole.
    pub IsHeap-Hole :
        (n : ℕ) (k k' : ℕ → P) (i : ℕ)
        → IsHeap n k
        → ((c : ℕ) → c < n → c ≢ i → k' c ≡ k c)
        → Hole n k' i
    IsHeap-Hole n k k' i h same = record {
      edges = λ c p q r s. ground (arith, same c, same (parent c), h c);
      bridged = λ c p q r s.
          ground (arith, same c, same (parent i), h c, h i, o.trans (k (parent i)) (k i) (k c));
    }

    -- `m` is a child of `i` that is less than it, and than its sibling.
    pub swap-down :
        (n : ℕ) (k k' : ℕ → P) (i m : ℕ)
        → Swapped i m k k'
        → Hole n k i
        → 0 < m
        → parent m ≡ i
        → i < n
        → less (k m) (k i) ≡ true
        → ((c : ℕ) → 0 < c → c < n → parent c ≡ i → less (k c) (k m) ≡ false)
        → m < n
        → Hole n k' m × InOrderAbove k' m
    swap-down n k k' i m s h pos child lt below least inside = (
      record {
        edges = λ c p q r t. ground (arith, s c, s (parent c), h.edges c, h.bridged m, least c);
        bridged = λ c p q r t. ground (arith, s c, s (parent m), h.edges c);
      },
      λ p. ground (arith, s m, s (parent m), o.asym (k m) (k i)),
    )

    pub swap-up :
        (n : ℕ) (k k' : ℕ → P) (j : ℕ)
        → Swapped (parent j) j k k'
        → Hole n k j
        → InOrderBelow n k j
        → 0 < j
        → j < n
        → less (k j) (k (parent j)) ≡ true
        → Hole n k' (parent j) × InOrderBelow n k' (parent j)
    swap-up n k k' j s h b pos lt below = (
      record {
        edges = λ c p q r t. ground (arith, s c, s (parent c), h.edges c, h.bridged c);
        bridged = λ c p q r t. ground (
          arith,
          s c,
          s (parent (parent j)),
          h.edges c,
          h.edges (parent j),
          o.trans (k (parent (parent j))) (k (parent j)) (k c),
        );
      },
      λ c p q r. ground (
        arith,
        s c,
        s (parent j),
        h.edges c,
        o.asym (k j) (k (parent j)),
        o.trans (k j) (k (parent j)) (k c),
      ),
    )

    root_least_below :
        (fuel n : ℕ) (k : ℕ → P) (i : ℕ)
        → IsHeap n k
        → less (k 0) (k 0) ≡ false
        → i < fuel
        → i < n
        → less (k i) (k 0) ≡ false
    root_least_below zero n k i h r f p = absurd (omega arith)
    root_least_below (suc fuel) n k i h r f p =
        ground
          (arith, h i, root_least_below fuel n k (parent i) h r, o.trans (k 0) (k (parent i)) (k i))

    -- No entry of a heap is less than the first.
    pub root_least : (n : ℕ) (k : ℕ → P) (i : ℕ) → IsHeap n k → i < n → less (k i) (k 0) ≡ false
    root_least n k i h p = root_least_below (suc i) n k i h (irrefl (k 0)) (omega arith) p
