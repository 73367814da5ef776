-- ===== src/Cluster/Ring/Valid.antt =====
-- internal/cluster/ring.go: what the token list and the token map hold.
use mathlib.Core.List.{append-nil, append_assoc}
use distributed_caching.Prelude.{
  ℕ, zero, suc, ◌+◌, ◌^◌, ◌<◌, ◌≡◌, refl, ap, sym, ◌∙◌, Bool, true, false, not, List, [], ◌∷◌, ◌++◌,
  none, some, ◌==◌, if◌then◌else◌, arith, Bool-cases, inl, inr, Str, same, nat_key, str_key,
}
use distributed_caching.Prelude.Dict.{
  Dict, lookup, insert, delete, has, lookup-insert, lookup-delete,
}
use distributed_caching.Cluster.Hash.{hash_key, token_name, hash_key-lt}
use distributed_caching.Cluster.Ring.{
  Ring, new_ring, string_at, insert_sorted, sort, add_tokens, add, remove_tokens, remove,
}
use distributed_caching.Cluster.Ring.Sorting.{Sorted, filter_by, sort-Sorted, filter_by-Sorted}

abbrev pub elem : ℕ → List ℕ → Bool
elem t [] = false
elem t (x ∷ xs) = if t == x then true else elem t xs

abbrev pub Distinct : List ℕ → Type 0
Distinct [] = Unit
Distinct (x ∷ xs) = (elem x xs ≡ false) × Distinct xs

pub elem-append :
    (t : ℕ) (xs ys : List ℕ) → elem t (xs ++ ys) ≡ (if elem t xs then true else elem t ys)
elem-append t [] ys = refl
elem-append t (x ∷ xs) ys = ground (arith, elem-append t xs ys)

elem-insert_sorted : (t x : ℕ) (xs : List ℕ) → elem t (insert_sorted x xs) ≡ elem t (x ∷ xs)
unfolding insert_sorted
elem-insert_sorted t x [] = refl
elem-insert_sorted t x (y ∷ xs) = ground (arith, elem-insert_sorted t x xs)

pub elem-sort : (t : ℕ) (xs : List ℕ) → elem t (sort xs) ≡ elem t xs
unfolding sort
elem-sort t [] = refl
elem-sort t (x ∷ xs) = ground (arith, elem-insert_sorted t x (sort xs), elem-sort t xs)

insert_sorted-Distinct :
    (x : ℕ) (xs : List ℕ) → elem x xs ≡ false → Distinct xs → Distinct (insert_sorted x xs)
unfolding insert_sorted
insert_sorted-Distinct x [] e d = (refl, tt)
insert_sorted-Distinct x (y ∷ xs) e d =
    ground (arith, elem-insert_sorted y x xs, insert_sorted-Distinct x xs)

pub sort-Distinct : (xs : List ℕ) → Distinct xs → Distinct (sort xs)
unfolding sort
sort-Distinct [] d = tt
sort-Distinct (x ∷ xs) d =
    insert_sorted-Distinct x (sort xs) (elem-sort x xs ∙ d.0) (sort-Distinct xs d.1)

pub elem-filter_by :
    (t : ℕ) (keep : ℕ → Bool) (xs : List ℕ)
    → elem t (filter_by keep xs) ≡ (if elem t xs then keep t else false)
elem-filter_by t keep [] = refl
elem-filter_by t keep (x ∷ xs) = elim (Bool-cases (t == x)) [
  | inl e ↦
      let same_token : t ≡ x = ground arith in
      ground (arith, elem-filter_by t keep xs, ap keep same_token)
  | inr e ↦ ground (arith, elem-filter_by t keep xs)
]

filter_by-Distinct : (keep : ℕ → Bool) (xs : List ℕ) → Distinct xs → Distinct (filter_by keep xs)
filter_by-Distinct keep [] d = tt
filter_by-Distinct keep (x ∷ xs) d =
    ground (arith, elem-filter_by x keep xs, filter_by-Distinct keep xs d.1)

filter_by-cong :
    (f g : ℕ → Bool) (xs : List ℕ)
    → ((t : ℕ) → elem t xs ≡ true → f t ≡ g t)
    → filter_by f xs ≡ filter_by g xs
filter_by-cong f g [] h = refl
filter_by-cong f g (x ∷ xs) h =
    ground (arith, h x, filter_by-cong f g xs (λ t e. h t (ground arith)))

-- The tokens of a node: `rounds` of them from number `i` on.
abbrev pub tokens_of : Str → ℕ → ℕ → List ℕ
tokens_of n zero i = []
tokens_of n (suc rounds) i = hash_key (token_name n i) ∷ tokens_of n rounds (i + 1)

pub tokens_of-lt :
    (t : ℕ) (n : Str) (rounds i : ℕ) → elem t (tokens_of n rounds i) ≡ true → t < 2 ^ 32
tokens_of-lt t n zero i e = cc
tokens_of-lt t n (suc rounds) i e =
    ground (arith, hash_key-lt (token_name n i), tokens_of-lt t n rounds (i + 1))

-- Whether a node keeps a token when node `n` leaves.
abbrev pub keeps : Str → Dict ℕ Str → ℕ → Bool
keeps n tokens t = not (same (string_at (lookup t tokens)) n)

-- What the loops of `Add` and `Remove` leave in the token list and in the token map.
pub record Added (n : Str) (news : List ℕ) (r r' : Ring) : Type 0 where
  pub list : r'.sorted_tokens ≡ r.sorted_tokens ++ news
  pub map : (t : ℕ) → lookup t r'.tokens ≡ (if elem t news then some n else lookup t r.tokens)
  pub addrs : r'.node_addrs ≡ r.node_addrs
  pub rounds : r'.virtual_nodes ≡ r.virtual_nodes

pub add_tokens-Added :
    (n : Str) (rounds i : ℕ) (r : Ring) → Added n (tokens_of n rounds i) r (add_tokens n rounds i r)
unfolding add_tokens
add_tokens-Added n zero i r = record {
  list = sym (append-nil _);
  map = λ t. refl;
  addrs = refl;
  rounds = refl;
}
add_tokens-Added n (suc rounds) i r =
    let token = hash_key (token_name n i) in
    let rest = add_tokens-Added n rounds (i + 1) (record r {
      tokens = insert token n r.tokens;
      sorted_tokens = r.sorted_tokens ++ token ∷ [];
    }) in
    record {
      list = rest.list ∙ append_assoc r.sorted_tokens (token ∷ []) _;
      map = λ t. rest.map t ∙ ground (arith, lookup-insert token t n r.tokens);
      addrs = rest.addrs;
      rounds = rest.rounds;
    }

pub remove_tokens-list :
    (n : Str) (ts : List ℕ) (tokens : Dict ℕ Str)
    → Distinct ts
    → (remove_tokens n ts tokens).0 ≡ filter_by (keeps n tokens) ts
unfolding remove_tokens
remove_tokens-list n [] tokens d = refl
remove_tokens-list n (t ∷ ts) tokens d =
    let others =
      filter_by-cong (keeps n (delete t tokens)) (keeps n tokens) ts
        (λ u e. ground (arith, lookup-delete t u tokens)) in
    ground (
      arith,
      others,
      remove_tokens-list n ts (delete t tokens) d.1,
      remove_tokens-list n ts tokens d.1,
    )

pub remove_tokens-map :
    (n : Str) (ts : List ℕ) (tokens : Dict ℕ Str) (u : ℕ)
    → Distinct ts
    → lookup u (remove_tokens n ts tokens).1 ≡ (
        if elem u ts then (if keeps n tokens u then lookup u tokens else none) else lookup u tokens)
unfolding remove_tokens
remove_tokens-map n [] tokens u d = refl
remove_tokens-map n (t ∷ ts) tokens u d = ground (
  arith,
  lookup-delete t u tokens,
  remove_tokens-map n ts (delete t tokens) u d.1,
  remove_tokens-map n ts tokens u d.1,
)

-- The token list is sorted and holds no token twice; every token is a uint32 with an owner.
pub record IsValid (r : Ring) : Type 0 where
  pub sorted : Sorted r.sorted_tokens
  pub distinct : Distinct r.sorted_tokens
  pub sized : (t : ℕ) → elem t r.sorted_tokens ≡ true → t < 2 ^ 32
  pub owned : (t : ℕ) → elem t r.sorted_tokens ≡ true → has t r.tokens ≡ true

-- The tokens that `Add` makes for a node do not meet one another or those on the ring.
pub record NoCollision (n : Str) (r : Ring) : Type 0 where
  pub apart : Distinct (tokens_of n r.virtual_nodes 0)
  pub free :
      (t : ℕ) → elem t (tokens_of n r.virtual_nodes 0) ≡ true → elem t r.sorted_tokens ≡ false

pub new_ring-IsValid : IsValid new_ring
unfolding new_ring
new_ring-IsValid = record { sorted = tt; distinct = tt; sized = λ t e. cc; owned = λ t e. cc }

append-Distinct :
    (xs ys : List ℕ)
    → Distinct xs
    → Distinct ys
    → ((t : ℕ) → elem t ys ≡ true → elem t xs ≡ false)
    → Distinct (xs ++ ys)
append-Distinct [] ys d e f = e
append-Distinct (x ∷ xs) ys d e f = (
  ground (arith, elem-append x xs ys, f x),
  append-Distinct xs ys d.1 e (λ t i. ground (arith, f t)),
)

-- `Add` in terms of the tokens of the node.
pub record Joined (n addr : Str) (r r' : Ring) : Type 0 where
  pub list : r'.sorted_tokens ≡ sort (r.sorted_tokens ++ tokens_of n r.virtual_nodes 0)
  pub map :
      (t : ℕ)
      → lookup t r'.tokens
        ≡ (if elem t (tokens_of n r.virtual_nodes 0) then some n else lookup t r.tokens)
  pub addrs : r'.node_addrs ≡ insert n addr r.node_addrs

pub add-Joined : (n addr : Str) (r : Ring) → Joined n addr r (add n addr r)
unfolding add
add-Joined n addr r =
    let a =
      add_tokens-Added n r.virtual_nodes 0 (record r { node_addrs = insert n addr r.node_addrs }) in
    record { list = ap sort a.list; map = a.map; addrs = a.addrs }

pub elem-add :
    (n addr : Str) (r : Ring) (t : ℕ)
    → elem t (add n addr r).sorted_tokens
      ≡ (if elem t r.sorted_tokens then true else elem t (tokens_of n r.virtual_nodes 0))
elem-add n addr r t =
    ap (elem t) (add-Joined n addr r).list ∙ elem-sort t _ ∙ elem-append t r.sorted_tokens _

-- `Add` keeps a valid ring valid if the new tokens meet neither one another nor those on the
-- ring.
pub add-IsValid : (n addr : Str) (r : Ring) → NoCollision n r → IsValid r → IsValid (add n addr r)
add-IsValid n addr r c v = record {
  sorted = rw j.list (sort-Sorted _);
  distinct =
      rw j.list (sort-Distinct _ (append-Distinct r.sorted_tokens _ v.distinct c.apart c.free));
  sized = λ t e. ground (arith, elem-add n addr r t, v.sized t, tokens_of-lt t n r.virtual_nodes 0);
  owned = λ t e. ground (arith, elem-add n addr r t, v.owned t, j.map t);
}
  where
    j : Joined n addr r (add n addr r)
    j = add-Joined n addr r

-- `Remove` keeps a valid ring valid: sorted, without repeats, and with an owner for every token.
pub remove-IsValid : (n : Str) (r : Ring) → IsValid r → IsValid (remove n r)
unfolding remove
remove-IsValid n r v = record {
  sorted = rw list (filter_by-Sorted _ r.sorted_tokens v.sorted);
  distinct = rw list (filter_by-Distinct _ r.sorted_tokens v.distinct);
  sized = λ t e. v.sized t (old t e).0;
  owned = λ t e.
      ground (arith, old t e, v.owned t, remove_tokens-map n r.sorted_tokens r.tokens t v.distinct);
}
  where
    list :
        (remove_tokens n r.sorted_tokens r.tokens).0 ≡ filter_by (keeps n r.tokens) r.sorted_tokens
    list = remove_tokens-list n r.sorted_tokens r.tokens v.distinct

    old :
        (t : ℕ)
        → elem t (remove_tokens n r.sorted_tokens r.tokens).0 ≡ true
        → (elem t r.sorted_tokens ≡ true) × (keeps n r.tokens t ≡ true)
    old t e = ground (arith, ap (elem t) list, elem-filter_by t (keeps n r.tokens) r.sorted_tokens)
