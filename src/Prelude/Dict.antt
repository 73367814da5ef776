-- ===== src/Prelude/Dict.antt =====
-- A Go map as an association list. Iteration order and capacity hints are not observable in it.
use distributed_caching.Prelude.Strings.{Key}
use distributed_caching.Prelude.Lists.{length}
use distributed_caching.Prelude.Tests.{is_some}
use mathlib.Core.Bool.{Bool, true, false}
use Prim.Native.Nat.{◌+◌, ◌≤◌}
use mathlib.Core.Path.{◌≡◌, refl}
use mathlib.Core.Logic.{◌≢◌, ite, if_pos, if_neg}
use mathlib.Core.List.{List, [], ◌∷◌}
use mathlib.Core.Option.{Option, none, some}
use native.Mathlib.Omega.{arith}

abbrev pub Dict : Type 0 → Type 0 → Type 0
Dict K V = List (K × V)

module _ {K V : Type 0} ⦃key : Key K⦄ where
  unfoldable pub lookup : K → Dict K V → Option V
  lookup k [] = none
  lookup k ((j, v) ∷ m) = ite (key.dec j k) (some v) (lookup k m)

  -- `m[k] = v`
  unfoldable pub insert : K → V → Dict K V → Dict K V
  insert k v [] = (k, v) ∷ []
  insert k v ((j, w) ∷ m) = ite (key.dec j k) ((k, v) ∷ m) ((j, w) ∷ insert k v m)

  -- `delete(m, k)`
  unfoldable pub delete : K → Dict K V → Dict K V
  delete k [] = []
  delete k ((j, w) ∷ m) = ite (key.dec j k) (delete k m) ((j, w) ∷ delete k m)

  -- A map holds a key at most once.
  abbrev pub IsMap : Dict K V → Type 0
  IsMap [] = Unit
  IsMap ((j, w) ∷ m) = (lookup j m ≡ none) × IsMap m

  pub lookup-insert :
      (k j : K) (v : V) (m : Dict K V)
      → lookup j (insert k v m) ≡ ite (key.dec k j) (some v) (lookup j m)
  unfolding lookup insert
  lookup-insert k j v [] = refl
  lookup-insert k j v ((i, w) ∷ m) = ground (arith, lookup-insert k j v m)

  pub lookup-delete :
      (k j : K) (m : Dict K V) → lookup j (delete k m) ≡ ite (key.dec k j) none (lookup j m)
  unfolding lookup delete
  lookup-delete k j [] = ground arith
  lookup-delete k j ((i, w) ∷ m) = ground (arith, lookup-delete k j m)

  pub insert-IsMap : (k : K) (v : V) (m : Dict K V) → IsMap m → IsMap (insert k v m)
  unfolding lookup insert
  insert-IsMap k v [] h = (refl, tt)
  insert-IsMap k v ((i, w) ∷ m) h = elim (key.dec i k) [
    | yes e ↦ rw (if_pos _ e) (ground arith)
    | no e ↦ rw (if_neg _ e) (ground (arith, lookup-insert k i v m), insert-IsMap k v m h.1)
  ]

  pub delete-IsMap : (k : K) (m : Dict K V) → IsMap m → IsMap (delete k m)
  unfolding lookup delete
  delete-IsMap k [] h = tt
  delete-IsMap k ((i, w) ∷ m) h = elim (key.dec i k) [
    | yes e ↦ rw (if_pos _ e) (delete-IsMap k m h.1)
    | no e ↦ rw (if_neg _ e) (ground (arith, lookup-delete k i m), delete-IsMap k m h.1)
  ]

  -- A new key adds an entry, and an old one adds none.
  pub length-insert :
      (k : K) (v : V) (m : Dict K V)
      → length (insert k v m) ≡ elim (lookup k m) [ none ↦ length m + 1 | some w ↦ length m ]
  unfolding lookup insert
  length-insert k v [] = omega arith
  length-insert k v ((i, w) ∷ m) = ground (arith, length-insert k v m)

  pub delete_absent : (k : K) (m : Dict K V) → lookup k m ≡ none → delete k m ≡ m
  unfolding lookup delete
  delete_absent k [] h = refl
  delete_absent k ((i, w) ∷ m) h = ground (arith, delete_absent k m)

  pub length-delete :
      (k : K) (m : Dict K V) {v : V}
      → IsMap m
      → lookup k m ≡ some v
      → length (delete k m) + 1 ≡ length m
  unfolding lookup delete
  length-delete k [] h e = cc
  length-delete k ((i, w) ∷ m) {v} h e = elim (key.dec i k) [
    | yes p ↦ rw (if_pos _ p, delete_absent k m (rw p at h.0)) (omega arith)
    | no p ↦ rw (if_neg _ p) (omega (arith, length-delete k m {v = v} h.1 (ground arith)))
  ]

  pub length-delete-le : (k : K) (m : Dict K V) → length (delete k m) ≤ length m
  unfolding delete
  length-delete-le k [] = omega arith
  length-delete-le k ((i, w) ∷ m) = ground (arith, length-delete-le k m)

  abbrev pub has : K → Dict K V → Bool
  has k m = is_some (lookup k m)

  pub has-insert :
      (k j : K) (v : V) (m : Dict K V) → has j (insert k v m) ≡ ite (key.dec k j) true (has j m)
  has-insert k j v m = ground (arith, lookup-insert k j v m)

  pub has-delete : (k j : K) (m : Dict K V) → has j (delete k m) ≡ ite (key.dec k j) false (has j m)
  has-delete k j m = ground (arith, lookup-delete k j m)

  pub has-insert_old :
      (k j : K) (v : V) (m : Dict K V) {w : V}
      → lookup k m ≡ some w
      → has j (insert k v m) ≡ has j m
  has-insert_old k j v m h = ground (arith, has-insert k j v m)

  pub length-insert_old :
      (k : K) (v : V) (m : Dict K V) {w : V}
      → lookup k m ≡ some w
      → length (insert k v m) ≡ length m
  length-insert_old k v m h = ground (arith, length-insert k v m)

  pub length-insert_new :
      (k : K) (v : V) (m : Dict K V) → lookup k m ≡ none → length (insert k v m) ≡ length m + 1
  length-insert_new k v m h = ground (arith, length-insert k v m)

  pub has-true : (k : K) (m : Dict K V) → has k m ≡ true → (v : V) × (lookup k m ≡ some v)
  has-true k m h = ground arith

  -- A map with an entry holds a key.
  pub has-nonempty : (m : Dict K V) → m ≢ [] → (k : K) × (has k m ≡ true)
  unfolding lookup
  has-nonempty [] h = absurd (h refl)
  has-nonempty ((j, v) ∷ m) h = (j, rw (if_pos (key.dec j j) refl))
