-- ===== src/Prelude/Strings.antt =====
-- Go strings. A Go string is its sequence of bytes, so it is a list of numbers below 256; a text
-- literal is turned into one by `codes`. Types whose equality is decided are instances of `Key`.
use Prim.Native.Nat.{ℕ}
use Prim.Native.Char.{code}
use Prim.Native.String.{String}
use mathlib.Core.Path.{refl, ap₂}
use mathlib.Core.List.{List, [], ◌∷◌}
use mathlib.Core.Logic.{ite, ◌≢◌}
use mathlib.Core.Bool.{Bool, true, false}
use native.Mathlib.Decide.{ℕ_discrete}
use native.Mathlib.Omega.{arith}

-- `string`: its bytes.
abbrev pub Str : Type 0
Str = List ℕ

-- The bytes of an ASCII text.
abbrev pub codes : String → Str
codes String.[] = []
codes (String.◌∷◌ c s) = code c ∷ codes s

nil-ne-cons : {y : ℕ} {ys : Str} → [] ≢ y ∷ ys
nil-ne-cons e = cc

cons-ne-nil : {y : ℕ} {ys : Str} → y ∷ ys ≢ []
cons-ne-nil e = cc

not-cons_head : {x y : ℕ} {xs ys : Str} → x ≢ y → x ∷ xs ≢ y ∷ ys
not-cons_head p e = ground arith

not-cons_tail : {x y : ℕ} {xs ys : Str} → xs ≢ ys → x ∷ xs ≢ y ∷ ys
not-cons_tail p e = ground arith

unfoldable pub Str-discrete : Discrete Str
unfolding ℕ_discrete nil-ne-cons cons-ne-nil not-cons_head not-cons_tail
Str-discrete [] [] = yes refl
Str-discrete [] (y ∷ ys) = no nil-ne-cons
Str-discrete (x ∷ xs) [] = no cons-ne-nil
Str-discrete (x ∷ xs) (y ∷ ys) = elim (ℕ_discrete x y) [
  | yes p ↦ elim (Str-discrete xs ys) [ yes q ↦ yes (ap₂ ◌∷◌ p q) | no q ↦ no (not-cons_tail q) ]
  | no p ↦ no (not-cons_head p)
]

-- A type whose values can be compared, as the keys of a Go map can.
pub record Key (K : Type 0) : Type 0 where
  pub dec : Discrete K

instance abbrev pub str_key : Key Str
str_key = record { dec = Str-discrete }

instance abbrev pub nat_key : Key ℕ
nat_key = record { dec = ℕ_discrete }

-- `a == b` on comparable values.
abbrev pub same : {K : Type 0} ⦃k : Key K⦄ → K → K → Bool
same ⦃k⦄ a b = ite (k.dec a b) true false
