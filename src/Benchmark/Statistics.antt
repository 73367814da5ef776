-- ===== src/Benchmark/Statistics.antt =====
-- internal/benchmark/eviction.go: the statistics of the latencies, over any type of floating point
-- numbers.
use distributed_caching.Prelude.{
  ℕ, zero, suc, ◌+◌, ◌-◌, ◌<◌, ◌≤◌, ◌^◌, ◌%◌, ◌≡◌, refl, Bool, true, false, List, [], ◌∷◌,
  if◌then◌else◌, leb, Int64, int64, length, get_or, set, ◌==◌,
}
pub mod Ascending

-- What the statistics use of `float64`.
pub record LatencyOps : Type 1 where
  pub Float : Type 0
  pub zero_float : Float
  pub less : Float → Float → Bool
  pub plus : Float → Float → Float
  pub over : Float → Float → Float
  pub times : Float → Float → Float
  pub of_int : Int64 → Float

abbrev pub add64 : Int64 → Int64 → Int64
add64 a b = (a + b + 2 ^ 63) % 2 ^ 64

module _ (f : LatencyOps) where
  -- `HitRate`
  unfoldable pub hit_rate : Int64 → Int64 → f.Float
  hit_rate hits misses =
      let total = add64 hits misses in
      if total == int64 0
      then f.zero_float
      else f.times (f.over (f.of_int hits) (f.of_int total)) (f.of_int (int64 100))

  -- `float64(len(values))`
  abbrev pub of_length : List f.Float → f.Float
  of_length values = f.of_int (int64 (length values))

  unfoldable pub sum_from : f.Float → List f.Float → f.Float
  sum_from sum [] = sum
  sum_from sum (v ∷ values) = sum_from (f.plus sum v) values

  unfoldable pub mean : List f.Float → f.Float
  mean [] = f.zero_float
  mean (v ∷ values) = f.over (sum_from f.zero_float (v ∷ values)) (of_length (v ∷ values))

  -- `sorted[j], sorted[j-1] = sorted[j-1], sorted[j]`, for j - 1
  unfoldable pub swap_next : ℕ → List f.Float → List f.Float
  swap_next j xs =
      set (set xs (suc j) (get_or xs j f.zero_float)) j (get_or xs (suc j) f.zero_float)

  -- The inner loop of `percentile` from j on.
  unfoldable pub sink : ℕ → List f.Float → List f.Float
  sink zero xs = xs
  sink (suc j) xs =
      let rest = sink j (swap_next j xs) in
      if f.less (get_or xs (suc j) f.zero_float) (get_or xs j f.zero_float) then rest else xs

  -- The outer loop: `rounds` more, from i on.
  unfoldable pub sink_all : ℕ → ℕ → List f.Float → List f.Float
  sink_all zero i xs = xs
  sink_all (suc rounds) i xs = sink_all rounds (i + 1) (sink i xs)

  abbrev pub sort_values : List f.Float → List f.Float
  sort_values xs = sink_all (length xs - 1) 1 xs

  -- `idx` after its two tests. `rank` is what the rounding up of `n/100*len` gives.
  abbrev pub index_of_rank : Int64 → ℕ → ℕ
  index_of_rank rank len =
      if leb rank (int64 0) then 0 else if leb len (rank - int64 1) then len - 1 else rank - int64 1

  unfoldable pub percentile : (ℕ → Int64) → List f.Float → f.Float
  percentile rank [] = f.zero_float
  percentile rank (v ∷ values) =
      get_or (sort_values (v ∷ values))
        (index_of_rank (rank (length (v ∷ values))) (length (v ∷ values))) f.zero_float
