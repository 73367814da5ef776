-- ===== src/Eviction/Random/Slice.antt =====
-- internal/eviction/random.go: the removal by swap and truncation, as an operation on key sets.
use distributed_caching.Prelude.{
  ℕ, zero, suc, ◌-◌, ◌≡◌, refl, Bool, true, false, none, some, ite, Str, str_key, List, [], ◌∷◌,
  ◌++◌, length, get_or, set, take, arith, Option-cases, inl, inr, ap,
}
use distributed_caching.Eviction.Random.{index_of, swap_truncate, remove}

abbrev pub contains : Str → List Str → Bool
contains k [] = false
contains k (j ∷ ks) = ite (str_key.dec j k) true (contains k ks)

abbrev pub Distinct : List Str → Type 0
Distinct [] = Unit
Distinct (k ∷ ks) = (contains k ks ≡ false) × Distinct ks

pub contains-append :
    (j k : Str) (ks : List Str)
    → contains j (ks ++ k ∷ []) ≡ ite (str_key.dec k j) true (contains j ks)
contains-append j k [] = refl
contains-append j k (i ∷ ks) = ground (arith, contains-append j k ks)

pub append-Distinct :
    (k : Str) (ks : List Str) → contains k ks ≡ false → Distinct ks → Distinct (ks ++ k ∷ [])
append-Distinct k [] e d = (refl, tt)
append-Distinct k (i ∷ ks) e d =
    (ground (arith, contains-append i k ks), append-Distinct k ks (ground arith) d.1)

abbrev last : Str → List Str → Str
last k [] = k
last k (j ∷ ks) = last j ks

abbrev init : Str → List Str → List Str
init k [] = []
init k (j ∷ ks) = k ∷ init j ks

get_or-last : (k : Str) (ks : List Str) (d : Str) → get_or (k ∷ ks) (length ks) d ≡ last k ks
get_or-last k [] d = refl
get_or-last k (j ∷ ks) d = get_or-last j ks d

take-init : (k : Str) (ks : List Str) → take (length ks) (k ∷ ks) ≡ init k ks
take-init k [] = refl
take-init k (j ∷ ks) = ap (◌∷◌ k) (take-init j ks)

contains-init :
    (i k : Str) (ks : List Str) → contains i (last k ks ∷ init k ks) ≡ contains i (k ∷ ks)
contains-init i k [] = refl
contains-init i k (j ∷ ks) = ground (arith, contains-init i j ks)

init-Distinct : (k : Str) (ks : List Str) → Distinct (k ∷ ks) → Distinct (last k ks ∷ init k ks)
init-Distinct k [] d = d
init-Distinct k (j ∷ ks) d = ground (arith, init-Distinct j ks d.1, contains-init k j ks)

-- The slice after the write at `i` of the last key and the truncation.
abbrev overwrite : Str → List Str → ℕ → List Str
overwrite k ks i = take (length ks) (set (k ∷ ks) i (last k ks))

contains-overwrite :
    (j key : Str) (k : Str) (ks : List Str) (i : ℕ)
    → Distinct (k ∷ ks)
    → index_of key (k ∷ ks) ≡ some i
    → contains j (overwrite k ks i) ≡ ite (str_key.dec key j) false (contains j (k ∷ ks))
unfolding index_of
contains-overwrite j key k [] i d e = ground arith
contains-overwrite j key k (k' ∷ ks) zero d e =
    ground (arith, contains-init j k' ks, take-init k' ks)
contains-overwrite j key k (k' ∷ ks) (suc i) d e =
    ground (arith, contains-overwrite j key k' ks i d.1)

overwrite-Distinct :
    (key : Str) (k : Str) (ks : List Str) (i : ℕ)
    → Distinct (k ∷ ks)
    → index_of key (k ∷ ks) ≡ some i
    → Distinct (overwrite k ks i)
unfolding index_of
overwrite-Distinct key k [] i d e = tt
overwrite-Distinct key k (k' ∷ ks) zero d e = rw (take-init k' ks) (init-Distinct k' ks d.1)
overwrite-Distinct key k (k' ∷ ks) (suc i) d e =
    ground (arith, contains-overwrite k key k' ks i d.1, overwrite-Distinct key k' ks i d.1)

not-contains : (j key : Str) (ks : List Str) → index_of key ks ≡ none → contains key ks ≡ false
unfolding index_of
not-contains j key [] e = refl
not-contains j key (k ∷ ks) e = ground (arith, not-contains j key ks)

swap_truncate-overwrite :
    (k : Str) (ks : List Str) (i : ℕ) → swap_truncate i (k ∷ ks) ≡ overwrite k ks i
swap_truncate-overwrite k ks i =
    let e : suc (length ks) - 1 ≡ length ks = omega arith in
    rw (e, swap_truncate) (ap (λ v. take (length ks) (set (k ∷ ks) i v)) (get_or-last k ks []))

-- From a list without repeats, the removal takes the key out and nothing else, wherever the key
-- stands.
pub contains-remove :
    (j key : Str) (ks : List Str)
    → Distinct ks
    → contains j (remove key ks) ≡ ite (str_key.dec key j) false (contains j ks)
unfolding remove
contains-remove j key [] d = unfold index_of in ground arith
contains-remove j key (k ∷ ks) d = elim (Option-cases (index_of key (k ∷ ks))) [
  | inl e ↦ rw (e, remove) (ground (arith, not-contains j key (k ∷ ks)))
  | inr (i, e) ↦ rw (e, remove, swap_truncate-overwrite) (contains-overwrite j key k ks i d e)
]

pub remove-Distinct : (key : Str) (ks : List Str) → Distinct ks → Distinct (remove key ks)
unfolding remove
remove-Distinct key [] d = unfold index_of in d
remove-Distinct key (k ∷ ks) d = elim (Option-cases (index_of key (k ∷ ks))) [
  | inl e ↦ rw (e, remove) d
  | inr (i, e) ↦ rw (e, remove, swap_truncate-overwrite) (overwrite-Distinct key k ks i d e)
]
