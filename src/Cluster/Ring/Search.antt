-- ===== src/Cluster/Ring/Search.antt =====
-- internal/cluster/ring.go: the binary search of `Get`, and the first token at or after the
-- position.
use distributed_caching.Prelude.{
  ℕ, zero, suc, ◌+◌, ◌/◌, ◌<◌, ◌≤◌, ◌≡◌, Bool, true, false, List, [], ◌∷◌, Option, none, some, leb,
  ltb, ◌==◌, if◌then◌else◌, arith, get_or, length, Bool-cases, inl, inr,
}
use distributed_caching.Cluster.Ring.{search_loop, sort_search}
use distributed_caching.Cluster.Ring.Sorting.{Sorted, get_or-le}

-- The test changes from false to true at most once below `n`.
abbrev pub Monotone : ℕ → (ℕ → Bool) → Type 0
Monotone n f = (i j : ℕ) → i ≤ j → j < n → f i ≡ true → f j ≡ true

-- `r` is the place where the test changes.
pub record IsFirst (n : ℕ) (f : ℕ → Bool) (r : ℕ) : Type 0 where
  pub within : r ≤ n
  pub before : (i : ℕ) → i < r → f i ≡ false
  pub here : r < n → f r ≡ true

search_loop-IsFirst :
    (n : ℕ) (f : ℕ → Bool)
    → Monotone n f
    → (fuel i j : ℕ) → i ≤ j
    → j ≤ n
    → j < i + fuel
    → ((k : ℕ) → k < i → f k ≡ false)
    → (j < n → f j ≡ true)
    → IsFirst n f (search_loop fuel f i j)
unfolding search_loop
search_loop-IsFirst n f m zero i j ij jn lt b t = absurd (omega arith)
search_loop-IsFirst n f m (suc fuel) i j ij jn lt b t = elim (Bool-cases (ltb i j)) [
  | inl more ↦ elim (Bool-cases (f ((i + j) / 2))) [
    | inl left ↦
        rw (more, left)
          (search_loop-IsFirst n f m fuel i ((i + j) / 2) (ground arith) (ground arith)
            (ground arith) b (λ _. left))
    | inr right ↦
        rw (more, right)
          (search_loop-IsFirst n f m fuel ((i + j) / 2 + 1) j (ground arith) jn (ground arith)
            (λ k h. below k (omega arith) (ground arith) right) t)
  ]
  | inr done ↦
      let e : j ≡ i = ground arith in
      rw done (record { within = omega arith; before = b; here = λ h. rw e at (t (omega arith)) })
]
  where
    below : (k : ℕ) → k ≤ (i + j) / 2 → (i + j) / 2 < n → f ((i + j) / 2) ≡ false → f k ≡ false
    below k le lt' no_match = elim (Bool-cases (f k)) [
      | inl hit ↦ cc (m k ((i + j) / 2) le lt' hit)
      | inr miss ↦ miss
    ]

-- The first token at or after the position.
abbrev pub first_from : ℕ → List ℕ → Option ℕ
first_from pos [] = none
first_from pos (t ∷ ts) = if leb pos t then some t else first_from pos ts

-- `sort.Search` finds the place where a monotone test changes.
pub sort_search-IsFirst : (n : ℕ) (f : ℕ → Bool) → Monotone n f → IsFirst n f (sort_search n f)
unfolding sort_search
sort_search-IsFirst n f m =
    search_loop-IsFirst n f m (n + 1) 0 n (omega arith) (omega arith) (omega arith)
      (λ k h. absurd (omega arith)) (λ h. absurd (omega arith))

-- The tokens before index `r` lie before the position, and the one at `r` does not.
first_from-get_or :
    (pos : ℕ) (ts : List ℕ) (r : ℕ)
    → ((i : ℕ) → i < r → leb pos (get_or ts i 0) ≡ false)
    → r ≤ length ts
    → (r < length ts → leb pos (get_or ts r 0) ≡ true)
    → first_from pos ts ≡ (if r == length ts then none else some (get_or ts r 0))
first_from-get_or pos [] r b w h = ground arith
first_from-get_or pos (t ∷ ts) zero b w h = ground (arith, h (omega arith))
first_from-get_or pos (t ∷ ts) (suc r) b w h =
    let rest =
      first_from-get_or pos ts r (λ i lt. b (suc i) (omega arith)) (omega arith)
        (λ lt. h (omega arith)) in
    ground (arith, b 0 (omega arith), rest)

-- On a sorted list the binary search agrees with the scan from the left.
pub first_from-sort_search :
    (pos : ℕ) (ts : List ℕ)
    → Sorted ts
    → let r = sort_search (length ts) (λ i. leb pos (get_or ts i 0)) in
      (r ≤ length ts)
      × (first_from pos ts ≡ (if r == length ts then none else some (get_or ts r 0)))
first_from-sort_search pos ts s =
    let first =
      sort_search-IsFirst (length ts) (λ i. leb pos (get_or ts i 0))
        (λ i j le lt hit. ground (arith, get_or-le ts i j 0 s le lt)) in
    (first.within, first_from-get_or pos ts _ first.before first.within first.here)
