-- ===== src/Cluster/Ring/Nearest.antt =====
-- internal/cluster/ring.go: the token that `Get` finds, as the nearest going round the circle.
use distributed_caching.Prelude.{
  ℕ, ◌+◌, ◌-◌, ◌%◌, ◌^◌, ◌<◌, ◌≤◌, ◌≡◌, leb→le, not-leb→lt, true, List, [], ◌∷◌, Option, none, some,
  leb, arith, Bool-cases, inl, inr, Str, str_key, nat_key, All,
}
use native.Mathlib.Nat.{le_refl}
use distributed_caching.Prelude.Dict.{lookup}
use distributed_caching.Cluster.Hash.{hash_key}
use distributed_caching.Cluster.Ring.{Ring, string_at, get}
use distributed_caching.Cluster.Ring.Sorting.{Sorted}
use distributed_caching.Cluster.Ring.Search.{first_from, first_from-sort_search}
use distributed_caching.Cluster.Ring.Valid.{elem}

-- How far a token lies behind a position, going clockwise round the uint32 circle.
abbrev pub distance : ℕ → ℕ → ℕ
distance pos t = (t + 2 ^ 32 - pos) % 2 ^ 32

-- The first token that one meets going clockwise from the position.
abbrev pub IsNearest : ℕ → List ℕ → ℕ → Type 0
IsNearest pos ts t =
    (elem t ts ≡ true) × ((u : ℕ) → elem u ts ≡ true → distance pos t ≤ distance pos u)

-- The node of a token and its address.
abbrev pub route : Ring → ℕ → Str × Str
route r t =
    let node_id = string_at (lookup t r.tokens) in
    (node_id, string_at (lookup node_id r.node_addrs))

All-elem : (n : ℕ) (ys : List ℕ) (u : ℕ) → All (λ y. n ≤ y) ys → elem u ys ≡ true → n ≤ u
All-elem n [] u a i = cc
All-elem n (y ∷ ys) u a i = ground (arith, All-elem n ys u a.1)

pub first_from-some :
    (pos : ℕ) (ts : List ℕ) (t : ℕ)
    → Sorted ts
    → first_from pos ts ≡ some t
    → (elem t ts ≡ true) × (pos ≤ t) × ((u : ℕ) → elem u ts ≡ true → pos ≤ u → t ≤ u)
first_from-some pos [] t s e = cc
first_from-some pos (x ∷ ts) t s e = elim (Bool-cases (leb pos x)) [
  | inl le ↦ (ground arith, ground arith, λ u i p. ground (arith, All-elem x ts u s.0))
  | inr gt ↦
      let rest = first_from-some pos ts t s.1 (ground arith) in
      (ground (arith, rest.0), rest.1, λ u i p. rest.2 u (ground arith) p)
]

first_from-none :
    (pos : ℕ) (ts : List ℕ) (u : ℕ) → first_from pos ts ≡ none → elem u ts ≡ true → u < pos
first_from-none pos [] u e i = cc
first_from-none pos (x ∷ ts) u e i = ground (arith, first_from-none pos ts u)

-- The token that `Get` looks up: the one that the search finds, or else the first of all.
abbrev pub or_first : ℕ → Option ℕ → ℕ
or_first x none = x
or_first x (some t) = t

pub or_first-IsNearest :
    (pos x : ℕ) (ts : List ℕ) (o : Option ℕ)
    → pos < 2 ^ 32
    → Sorted (x ∷ ts)
    → ((t : ℕ) → elem t (x ∷ ts) ≡ true → t < 2 ^ 32)
    → first_from pos (x ∷ ts) ≡ o
    → IsNearest pos (x ∷ ts) (or_first x o)
or_first-IsNearest pos x ts none lt s sized e = (ground arith, farther)
  where
    farther : (u : ℕ) → elem u (x ∷ ts) ≡ true → distance pos x ≤ distance pos u
    farther u i =
        let least : x ≤ u = All-elem x (x ∷ ts) u (le_refl x, s.0) i in
        let before : u < pos = first_from-none pos (x ∷ ts) u e i in omega arith
or_first-IsNearest pos x ts (some t) lt s sized e = (found.0, farther)
  where
    found :
        (elem t (x ∷ ts) ≡ true) × (pos ≤ t) × ((u : ℕ) → elem u (x ∷ ts) ≡ true → pos ≤ u → t ≤ u)
    found = first_from-some pos (x ∷ ts) t s e

    farther : (u : ℕ) → elem u (x ∷ ts) ≡ true → distance pos t ≤ distance pos u
    farther u i = elim (Bool-cases (leb pos u)) [
      | inl le ↦
          let after : t ≤ u = found.2 u i (ground arith) in
          omega (arith, sized t found.0, sized u i, found.1, leb→le pos u le)
      | inr gt ↦ omega (arith, sized t found.0, sized u i, found.1, not-leb→lt pos u gt)
    ]

-- No two tokens are equally near.
pub IsNearest-unique :
    (pos : ℕ) (ts : List ℕ) (t u : ℕ)
    → pos < 2 ^ 32
    → ((x : ℕ) → elem x ts ≡ true → x < 2 ^ 32)
    → IsNearest pos ts t
    → IsNearest pos ts u
    → t ≡ u
IsNearest-unique pos ts t u lt sized (i, p) (j, q) =
    omega (arith, sized t i, sized u j, p u j, q t i)

pub get-or_first :
    (key : Str) (r : Ring) (x : ℕ) (ts : List ℕ)
    → r.sorted_tokens ≡ x ∷ ts
    → Sorted (x ∷ ts)
    → get key r ≡ some (route r (or_first x (first_from (hash_key key) (x ∷ ts))))
unfolding get
get-or_first key r x ts e s =
    let f = first_from-sort_search (hash_key key) (x ∷ ts) s in rw (e, get) (ground (arith, f))
