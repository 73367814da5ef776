-- ===== src/Benchmark/Statistics/Ascending.antt =====
-- internal/benchmark/eviction.go: the insertion sort of `percentile`, which swaps in place, and what
-- the percentile is.
use distributed_caching.Prelude.{
  ℕ, ◌+◌, ◌<◌, ◌≤◌, ◌⊎◌, int64, ◌≡◌, true, false, List, [], ◌∷◌, if◌then◌else◌, Int64, All,
}
use mathlib.Core.List.{Perm}
use mathlib.Core.List.Perm
use distributed_caching.Benchmark.Statistics.{LatencyOps}

-- The tests of floating point numbers, none of which is NaN, come from an order.
pub record Orders (f : LatencyOps) : Type 0 where
  pub asym : (x y : f.Float) → f.less x y ≡ true → f.less y x ≡ false
  pub trans : (x y z : f.Float) → f.less y x ≡ false → f.less z y ≡ false → f.less z x ≡ false

-- The elements of the first list, the last of them first, before the second.
abbrev onto : {A : Type 0} → List A → List A → List A
onto [] zs = zs
onto (y ∷ r) zs = onto r (y ∷ zs)

module _ (f : LatencyOps) where
  -- The index at which a rank stands in a list of n elements.
  abbrev IsAt : ℕ → Int64 → ℕ → Type 0
  IsAt i rank n =
      (rank ≤ int64 0 × (i ≡ 0))
      ⊎ (int64 0 < rank × rank ≤ int64 0 + n × (int64 0 + (i + 1) ≡ rank))
      ⊎ (int64 0 + n < rank × (i + 1 ≡ n))

  -- The elements before x, the last of them first, when x has sunk among them.
  place : List f.Float → f.Float → List f.Float
  place [] x = x ∷ []
  place (y ∷ r) x = let rest = place r x in if f.less x y then y ∷ rest else x ∷ y ∷ r

  place_all : List f.Float → List f.Float → List f.Float
  place_all r [] = r
  place_all r (x ∷ zs) = place_all (place r x) zs

  -- No element is less than one before it.
  abbrev pub IsAscending : List f.Float → Type 0
  IsAscending [] = Unit
  IsAscending (x ∷ xs) = All (λ y. f.less y x ≡ false) xs × IsAscending xs

  abbrev IsDescending : List f.Float → Type 0
  IsDescending [] = Unit
  IsDescending (x ∷ xs) = All (λ y. f.less x y ≡ false) xs × IsDescending xs

  -- Each element of the first list is at most each of the second.
  abbrev AreBelow : List f.Float → List f.Float → Type 0
  AreBelow r zs = All (λ y. All (λ z. f.less z y ≡ false) zs) r
