-- ===== src/Cluster/Ring/Sorting.antt =====
-- internal/cluster/ring.go: the sorted token list.
use distributed_caching.Prelude.{
  ℕ, zero, suc, ◌<◌, ◌≤◌, ◌≡◌, refl, ◌∙◌, Bool, List, [], ◌∷◌, ◌++◌, leb, if◌then◌else◌, arith,
  get_or, length, All, Bool-cases, inl, inr,
}
use distributed_caching.Cluster.Ring.{insert_sorted, sort}

abbrev pub Sorted : List ℕ → Type 0
Sorted [] = Unit
Sorted (x ∷ xs) = All (λ y. x ≤ y) xs × Sorted xs

abbrev pub filter_by : (ℕ → Bool) → List ℕ → List ℕ
filter_by keep [] = []
filter_by keep (x ∷ xs) = if keep x then x ∷ filter_by keep xs else filter_by keep xs

All-insert_sorted :
    (n t : ℕ) (xs : List ℕ) → n ≤ t → All (λ y. n ≤ y) xs → All (λ y. n ≤ y) (insert_sorted t xs)
unfolding insert_sorted
All-insert_sorted n t [] h a = (h, tt)
All-insert_sorted n t (x ∷ xs) h a = ground (arith, All-insert_sorted n t xs h a.1)

All-le : (m n : ℕ) (xs : List ℕ) → m ≤ n → All (λ y. n ≤ y) xs → All (λ y. m ≤ y) xs
All-le m n [] h a = tt
All-le m n (x ∷ xs) h a = (omega arith, All-le m n xs h a.1)

insert_sorted-Sorted : (t : ℕ) (xs : List ℕ) → Sorted xs → Sorted (insert_sorted t xs)
unfolding insert_sorted
insert_sorted-Sorted t [] s = (tt, tt)
insert_sorted-Sorted t (x ∷ xs) s = elim (Bool-cases (leb t x)) [
  | inl le ↦ rw le ((ground arith, All-le t x xs (ground arith) s.0), s)
  | inr gt ↦ rw gt (All-insert_sorted x t xs (ground arith) s.0, insert_sorted-Sorted t xs s.1)
]

pub sort-Sorted : (xs : List ℕ) → Sorted (sort xs)
unfolding sort
sort-Sorted [] = tt
sort-Sorted (x ∷ xs) = insert_sorted-Sorted x (sort xs) (sort-Sorted xs)

-- A least element goes to the front.
insert_sorted_least : (t : ℕ) (xs : List ℕ) → All (λ y. t ≤ y) xs → insert_sorted t xs ≡ t ∷ xs
unfolding insert_sorted
insert_sorted_least t [] a = refl
insert_sorted_least t (x ∷ xs) a = ground arith

pub sort_of_Sorted : (xs : List ℕ) → Sorted xs → sort xs ≡ xs
unfolding sort
sort_of_Sorted [] s = refl
sort_of_Sorted (x ∷ xs) s = rw (sort_of_Sorted xs s.1) (insert_sorted_least x xs s.0)

pub All-filter_by :
    (n : ℕ) (keep : ℕ → Bool) (xs : List ℕ)
    → All (λ y. n ≤ y) xs
    → All (λ y. n ≤ y) (filter_by keep xs)
All-filter_by n keep [] a = tt
All-filter_by n keep (x ∷ xs) a = ground (arith, All-filter_by n keep xs a.1)

pub filter_by-Sorted : (keep : ℕ → Bool) (xs : List ℕ) → Sorted xs → Sorted (filter_by keep xs)
filter_by-Sorted keep [] s = tt
filter_by-Sorted keep (x ∷ xs) s =
    ground (arith, filter_by-Sorted keep xs s.1, All-filter_by x keep xs s.0)

filter_by-insert_sorted :
    (keep : ℕ → Bool) (t : ℕ) (xs : List ℕ)
    → Sorted xs
    → filter_by keep (insert_sorted t xs)
      ≡ (if keep t then insert_sorted t (filter_by keep xs) else filter_by keep xs)
unfolding insert_sorted
filter_by-insert_sorted keep t [] s = refl
filter_by-insert_sorted keep t (x ∷ xs) s = elim (Bool-cases (leb t x)) [
  | inl le ↦
      let least =
        insert_sorted_least t (filter_by keep (x ∷ xs))
          (All-filter_by t keep (x ∷ xs) (ground arith, All-le t x xs (ground arith) s.0)) in
      rw le (ground (arith, least))
  | inr gt ↦ rw gt (ground (arith, filter_by-insert_sorted keep t xs s.1))
]

-- To sort and to drop tokens may change places.
pub filter_by-sort :
    (keep : ℕ → Bool) (xs : List ℕ) → filter_by keep (sort xs) ≡ sort (filter_by keep xs)
unfolding sort
filter_by-sort keep [] = refl
filter_by-sort keep (x ∷ xs) =
    filter_by-insert_sorted keep x (sort xs) (sort-Sorted xs)
    ∙ ground (arith, filter_by-sort keep xs)

pub filter_by-append :
    (keep : ℕ → Bool) (xs ys : List ℕ)
    → filter_by keep (xs ++ ys) ≡ filter_by keep xs ++ filter_by keep ys
filter_by-append keep [] ys = refl
filter_by-append keep (x ∷ xs) ys = ground (arith, filter_by-append keep xs ys)

-- Entries stand in the order of their indices.
pub get_or-le :
    (xs : List ℕ) (i j d : ℕ) → Sorted xs → i ≤ j → j < length xs → get_or xs i d ≤ get_or xs j d
get_or-le [] i j d s le lt = absurd (omega arith)
get_or-le (x ∷ xs) zero zero d s le lt = omega arith
get_or-le (x ∷ xs) zero (suc j) d s le lt = All-get_or x xs j d s.0 (omega arith)
  where
    All-get_or :
        (n : ℕ) (ys : List ℕ) (j d : ℕ) → All (λ y. n ≤ y) ys → j < length ys → n ≤ get_or ys j d
    All-get_or n [] j d a lt = absurd (omega arith)
    All-get_or n (y ∷ ys) zero d a lt = a.0
    All-get_or n (y ∷ ys) (suc j) d a lt = All-get_or n ys j d a.1 (omega arith)
get_or-le (x ∷ xs) (suc i) zero d s le lt = absurd (omega arith)
get_or-le (x ∷ xs) (suc i) (suc j) d s le lt = get_or-le xs i j d s.1 (omega arith) (omega arith)
