-- ===== src/Eviction/Heap/Swaps.antt =====
-- internal/eviction: what the exchange of two positions leaves as it was.
use distributed_caching.Prelude.{
  ℕ, zero, suc, ◌+◌, ◌<◌, ◌≤◌, ◌≡◌, ◌≢◌, inl, inr, refl, ap, ◌∙◌, some, List, [], ◌∷◌, ◌++◌, ◌==◌,
  if◌then◌else◌, length, get_or, set, take, arith, Bool-cases, subst,
}
use distributed_caching.Eviction.Heap.{Addr, Heap, slot, swap}

module _ {A : Type 0} where
  pub length-set : (xs : List A) (i : ℕ) (v : A) → length (set xs i v) ≡ length xs
  length-set [] i v = refl
  length-set (x ∷ xs) zero v = refl
  length-set (x ∷ xs) (suc i) v = ap suc (length-set xs i v)

  pub get_or-set :
      (xs : List A) (i c : ℕ) (v d : A)
      → i < length xs
      → get_or (set xs i v) c d ≡ (if c == i then v else get_or xs c d)
  get_or-set [] i c v d h = absurd (omega arith)
  get_or-set (x ∷ xs) zero zero v d h = refl
  get_or-set (x ∷ xs) zero (suc c) v d h = ground arith
  get_or-set (x ∷ xs) (suc i) zero v d h = ground arith
  get_or-set (x ∷ xs) (suc i) (suc c) v d h = ground (arith, get_or-set xs i c v d)

  pub get_or-append :
      (xs : List A) (y : A) (c : ℕ) (d : A)
      → c < length xs + 1
      → get_or (xs ++ y ∷ []) c d ≡ (if c == length xs then y else get_or xs c d)
  get_or-append [] y zero d h = refl
  get_or-append [] y (suc c) d h = absurd (omega arith)
  get_or-append (x ∷ xs) y zero d h = ground arith
  get_or-append (x ∷ xs) y (suc c) d h = ground (arith, get_or-append xs y c d)

  pub get_or-take :
      (n : ℕ) (xs : List A) (c : ℕ) (d : A) → c < n → get_or (take n xs) c d ≡ get_or xs c d
  get_or-take zero xs c d h = absurd (omega arith)
  get_or-take (suc n) [] c d h = refl
  get_or-take (suc n) (x ∷ xs) zero d h = refl
  get_or-take (suc n) (x ∷ xs) (suc c) d h = get_or-take n xs c d (omega arith)

  pub length-take : (n : ℕ) (xs : List A) → n ≤ length xs → length (take n xs) ≡ n
  length-take zero xs h = refl
  length-take (suc n) [] h = absurd (omega arith)
  length-take (suc n) (x ∷ xs) h = ap suc (length-take n xs (omega arith))

module _ {P : Type 0} where
  -- Every entry of the heap knows its position.
  abbrev pub Placed : Heap P → Type 0
  Placed h = (i : ℕ) → i < length h.slots → (h.objs (slot h i)).index ≡ some i

  -- The address stands in the heap, at the position that its entry knows.
  abbrev pub Holds : Heap P → Addr → Type 0
  Holds h a = (i : ℕ) × ((h.objs a).index ≡ some i) × (i < length h.slots) × (slot h i ≡ a)

  -- The same entries, maybe in other places.
  pub record Shuffled (h h' : Heap P) : Type 0 where
    pub placed : Placed h'
    pub size : length h'.slots ≡ length h.slots
    pub key : (a : Addr) → (h'.objs a).key ≡ (h.objs a).key
    pub payload : (a : Addr) → (h'.objs a).payload ≡ (h.objs a).payload
    pub holds : (a : Addr) → Holds h a → Holds h' a
    pub held : (i : ℕ) → i < length h.slots → Holds h (slot h' i)
    pub outside : (a : Addr) → ((i : ℕ) → i < length h.slots → slot h i ≢ a) → h'.objs a ≡ h.objs a

  pub Shuffled-refl : (h : Heap P) → Placed h → Shuffled h h
  Shuffled-refl h p = record {
    placed = p;
    size = refl;
    key = λ a. refl;
    payload = λ a. refl;
    holds = λ a m. m;
    held = λ i l. (i, p i l, l, refl);
    outside = λ a o. refl;
  }

  pub slot-swap :
      (i j : ℕ) (h : Heap P) (c : ℕ)
      → i < length h.slots
      → j < length h.slots
      → slot (swap i j h) c ≡ (if c == j then slot h i else if c == i then slot h j else slot h c)
  unfolding swap
  slot-swap i j h c p q = ground (
    arith,
    get_or-set (set h.slots i (slot h j)) j c (slot h i) 0,
    get_or-set h.slots i c (slot h j) 0,
    length-set h.slots i (slot h j),
  )

  length-swap : (i j : ℕ) (h : Heap P) → length (swap i j h).slots ≡ length h.slots
  unfolding swap
  length-swap i j h =
      length-set (set h.slots i (slot h j)) j (slot h i) ∙ length-set h.slots i (slot h j)

  objs-swap :
      (i j : ℕ) (h : Heap P) (a : Addr)
      → ((swap i j h).objs a).index
        ≡ (if a == slot h i then some j else if a == slot h j then some i else (h.objs a).index)
  unfolding swap
  objs-swap i j h a = ground arith

  pub swap-Shuffled :
      (i j : ℕ) (h : Heap P)
      → i < length h.slots
      → j < length h.slots
      → Placed h
      → Shuffled h (swap i j h)
  unfolding swap
  swap-Shuffled i j h p q v = record {
    placed = λ c l. ground (
      arith,
      slot-swap i j h c p q,
      objs-swap i j h (slot (swap i j h) c),
      v c,
      v i,
      v j,
      length-swap i j h,
    );
    size = length-swap i j h;
    key = λ a. ground arith;
    payload = λ a. ground arith;
    holds = λ a m. holds_swap a m;
    held = λ c l. held_swap c l;
    outside = λ a o. ground (arith, o i, o j);
  }
    where
      holds_swap : (a : Addr) → Holds h a → Holds (swap i j h) a
      holds_swap a (c, e, l, s) = elim (Bool-cases (a == slot h i)) [
        | inl first ↦ (
          j,
          ground (arith, objs-swap i j h a),
          omega (arith, length-swap i j h),
          ground (arith, slot-swap i j h j p q),
        )
        | inr other ↦ elim (Bool-cases (a == slot h j)) [
          | inl second ↦ (
            i,
            ground (arith, objs-swap i j h a),
            omega (arith, length-swap i j h),
            ground (arith, slot-swap i j h i p q),
          )
          | inr neither ↦ (
            c,
            ground (arith, objs-swap i j h a),
            omega (arith, length-swap i j h),
            ground (arith, slot-swap i j h c p q),
          )
        ]
      ]

      held_swap : (c : ℕ) → c < length h.slots → Holds h (slot (swap i j h) c)
      held_swap c l = elim (Bool-cases (c == j)) [
        | inl first ↦ subst (Holds h) (ground (arith, slot-swap i j h c p q)) (i, v i p, p, refl)
        | inr other ↦ elim (Bool-cases (c == i)) [
          | inl second ↦ subst (Holds h) (ground (arith, slot-swap i j h c p q)) (j, v j q, q, refl)
          | inr neither ↦
              subst (Holds h) (ground (arith, slot-swap i j h c p q)) (c, v c l, l, refl)
        ]
      ]

  pub Shuffled-trans : (h h' h'' : Heap P) → Shuffled h h' → Shuffled h' h'' → Shuffled h h''
  Shuffled-trans h h' h'' a b = record {
    placed = b.placed;
    size = b.size ∙ a.size;
    key = λ x. b.key x ∙ a.key x;
    payload = λ x. b.payload x ∙ a.payload x;
    holds = λ x m. b.holds x (a.holds x m);
    held = λ i l.
        let (c, e, l', s) = b.held i (omega (arith, a.size)) in
        subst (Holds h) s (a.held c (omega (arith, a.size)));
    outside = λ x o.
        b.outside x (λ i l e. let m = a.held i (omega (arith, a.size)) in o m.0 m.2 (m.3 ∙ e))
        ∙ a.outside x o;
  }
