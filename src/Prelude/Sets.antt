-- ===== src/Prelude/Sets.antt =====
-- Lists of comparable values as finite sets: membership, distinctness, and counting.
use distributed_caching.Prelude.Strings.{Key}
use distributed_caching.Prelude.Lists.{length, length-append}
use distributed_caching.Prelude.Tests.{Bool-cases}
use Prim.Native.Nat.{◌+◌, ◌≤◌, ◌<◌}
use mathlib.Core.Path.{◌≡◌, refl}
use mathlib.Core.Logic.{ite, ◌≢◌, ◌⊎◌, inl, inr, if_pos}
use mathlib.Core.Bool.{Bool, true, false}
use mathlib.Core.List.{List, [], ◌∷◌, ◌++◌}
use native.Mathlib.Omega.{arith}

module _ {A : Type 0} ⦃key : Key A⦄ where
  abbrev pub elem : A → List A → Bool
  elem a [] = false
  elem a (x ∷ xs) = ite (key.dec x a) true (elem a xs)

  abbrev pub Distinct : List A → Type 0
  Distinct [] = Unit
  Distinct (x ∷ xs) = (elem x xs ≡ false) × Distinct xs

  abbrev pub erase : A → List A → List A
  erase a [] = []
  erase a (x ∷ xs) = ite (key.dec x a) xs (x ∷ erase a xs)

  -- Every element of the first list is one of the second.
  abbrev pub Within : List A → List A → Type 0
  Within xs ys = (a : A) → elem a xs ≡ true → elem a ys ≡ true

  pub elem_self : (a : A) (xs : List A) → elem a (a ∷ xs) ≡ true
  elem_self a xs = if_pos (key.dec a a) refl true (elem a xs)

  pub elem-erase :
      (a b : A) (xs : List A)
      → Distinct xs
      → elem b (erase a xs) ≡ ite (key.dec a b) false (elem b xs)
  elem-erase a b [] d = ground arith
  elem-erase a b (x ∷ xs) d = ground (arith, elem-erase a b xs d.1)

  pub elem-erase_ne : (a b : A) (xs : List A) → a ≢ b → elem b (erase a xs) ≡ elem b xs
  elem-erase_ne a b [] h = refl
  elem-erase_ne a b (x ∷ xs) h = ground (arith, elem-erase_ne a b xs h)

  pub erase-Distinct : (a : A) (xs : List A) → Distinct xs → Distinct (erase a xs)
  erase-Distinct a [] d = tt
  erase-Distinct a (x ∷ xs) d = ground (arith, erase-Distinct a xs d.1, elem-erase a x xs d.1)

  pub length-erase : (a : A) (xs : List A) → elem a xs ≡ true → length (erase a xs) + 1 ≡ length xs
  length-erase a [] e = cc
  length-erase a (x ∷ xs) e = ground (arith, length-erase a xs)

  -- Distinct elements of a list are no more than the list is long.
  pub length-le_of_Within : (xs ys : List A) → Distinct xs → Within xs ys → length xs ≤ length ys
  length-le_of_Within [] ys d w = omega arith
  length-le_of_Within (x ∷ xs) ys d w =
      let rest =
        length-le_of_Within xs (erase x ys) d.1
          (λ a e. ground (arith, w a, elem-erase_ne x a ys)) in
      omega (arith, rest, length-erase x ys (w x (elem_self x xs)))

  -- Two lists share an element, or their concatenation repeats none.
  overlap :
      (xs ys : List A)
      → Distinct ys
      → Distinct xs
      → ((a : A) × (elem a xs ≡ true) × (elem a ys ≡ true))
        ⊎ (Distinct (xs ++ ys)
            × ((a : A) → elem a (xs ++ ys) ≡ true → (elem a xs ≡ true) ⊎ (elem a ys ≡ true)))
  overlap [] ys e d = inr (e, λ a i. inr i)
  overlap (x ∷ xs) ys e d = elim (Bool-cases (elem x ys)) [
    | inl shared ↦ inl (x, elem_self x xs, shared)
    | inr apart ↦ elim (overlap xs ys e d.1) [
      | inl (a, i, j) ↦ inl (a, ground arith, j)
      | inr (f, g) ↦ inr ((ground (arith, g x), f), λ a i. ground (arith, g a))
    ]
  ]

  -- Two sets of members that together outnumber the members share one.
  pub shared_member :
      (xs ys ms : List A)
      → Distinct xs
      → Distinct ys
      → Within xs ms
      → Within ys ms
      → length ms < length xs + length ys
      → (a : A) × (elem a xs ≡ true) × (elem a ys ≡ true)
  shared_member xs ys ms d e v w lt = elim (overlap xs ys e d) [
    | inl found ↦ found
    | inr (f, g) ↦ absurd (
        omega (
          arith,
          length-append xs ys,
          length-le_of_Within (xs ++ ys) ms f (λ a i. ground (arith, g a i, v a, w a)),
        ))
  ]
