-- ===== src/Cluster/Ring/Routing.antt =====
-- internal/cluster/ring.go: which node a key is routed to.
use distributed_caching.Prelude.{
  ℕ, ◌^◌, ◌<◌, ◌≡◌, refl, ap, subst, sym, ◌∙◌, ◌≢◌, true, false, List, [], ◌∷◌, Option, none, some,
  if◌then◌else◌, arith, Bool-cases, ◌⊎◌, inl, inr, Str, str_key, nat_key,
}
use distributed_caching.Prelude.Dict.{lookup, lookup-insert, lookup-delete}
use distributed_caching.Cluster.Hash.{hash_key, hash_key-lt}
use distributed_caching.Cluster.Ring.{Ring, string_at, add, remove, get}
use distributed_caching.Cluster.Ring.Sorting.{Sorted}
use distributed_caching.Cluster.Ring.Search.{first_from}
use distributed_caching.Cluster.Ring.Valid.{
  elem, tokens_of, keeps, IsValid, NoCollision, add-Joined, elem-add, elem-filter_by,
  remove_tokens-list, remove_tokens-map, add-IsValid, remove-IsValid,
}
pub use distributed_caching.Cluster.Ring.Nearest.{distance, IsNearest, route}
use distributed_caching.Cluster.Ring.Nearest.{
  first_from-some, or_first, or_first-IsNearest, IsNearest-unique, get-or_first,
}

-- Over a sorted token list that is not empty, `Get` answers with the route of one of the tokens.
pub get-answers :
    (key : Str) (r : Ring) (t : ℕ)
    → Sorted r.sorted_tokens
    → elem t r.sorted_tokens ≡ true
    → (u : ℕ) × (elem u r.sorted_tokens ≡ true) × (get key r ≡ some (route r u))
get-answers key r t s here = go r.sorted_tokens refl
  where
    pick :
        (x : ℕ) (ts : List ℕ) (o : Option ℕ)
        → Sorted (x ∷ ts)
        → first_from (hash_key key) (x ∷ ts) ≡ o
        → elem (or_first x o) (x ∷ ts) ≡ true
    pick x ts none p e = ground arith
    pick x ts (some u) p e = (first_from-some (hash_key key) (x ∷ ts) u p e).0

    go :
        (ts : List ℕ)
        → r.sorted_tokens ≡ ts
        → (u : ℕ) × (elem u r.sorted_tokens ≡ true) × (get key r ≡ some (route r u))
    go [] e = absurd (ground (arith, ap (elem t) e))
    go (x ∷ ts) e =
        let p = subst Sorted e s in
        (_, ap (elem _) e ∙ pick x ts _ p refl, get-or_first key r x ts e p)

-- On a valid ring, `Get` answers with the owner of the token that is nearest going clockwise from
-- the key's position, and with that node's address.
pub get-nearest :
    (key : Str) (r : Ring) (t : ℕ)
    → IsValid r
    → IsNearest (hash_key key) r.sorted_tokens t
    → get key r ≡ some (route r t)
get-nearest key r t v near = go r.sorted_tokens refl
  where
    go : (ts : List ℕ) → r.sorted_tokens ≡ ts → get key r ≡ some (route r t)
    go [] e = absurd (ground (arith, ap (elem t) e))
    go (x ∷ ts) e =
        let s = subst Sorted e v.sorted in
        let sized : (u : ℕ) → elem u (x ∷ ts) ≡ true → u < 2 ^ 32 =
          λ u i. v.sized u (ap (elem u) e ∙ i) in
        let same_token =
          IsNearest-unique (hash_key key) (x ∷ ts) _ t (hash_key-lt key) sized
            (or_first-IsNearest (hash_key key) x ts _ (hash_key-lt key) s sized refl)
            (subst (λ l. IsNearest (hash_key key) l t) e near) in
        get-or_first key r x ts e s ∙ ap (λ u. some (route r u)) same_token

nearest :
    (key : Str) (r : Ring)
    → IsValid r
    → (r.sorted_tokens ≡ []) ⊎ ((t : ℕ) × IsNearest (hash_key key) r.sorted_tokens t)
nearest key r v = go r.sorted_tokens refl
  where
    go :
        (ts : List ℕ)
        → r.sorted_tokens ≡ ts
        → (r.sorted_tokens ≡ []) ⊎ ((t : ℕ) × IsNearest (hash_key key) r.sorted_tokens t)
    go [] e = inl e
    go (x ∷ ts) e =
        let s = subst Sorted e v.sorted in
        inr (
          or_first x (first_from (hash_key key) (x ∷ ts)),
          rw e (
              or_first-IsNearest (hash_key key) x ts _ (hash_key-lt key) s
                (λ u i. v.sized u (ap (elem u) e ∙ i)) refl),
        )

get-nil : (key : Str) (r : Ring) → r.sorted_tokens ≡ [] → get key r ≡ none
unfolding get
get-nil key r e = rw e refl

-- Where `Get` answers, there is a nearest token, and the answer is its route.
get-some :
    (key : Str) (r : Ring) {a : Str × Str}
    → IsValid r
    → get key r ≡ some a
    → (t : ℕ) × IsNearest (hash_key key) r.sorted_tokens t × (route r t ≡ a)
get-some key r v e = elim (nearest key r v) [
  | inl empty ↦ absurd (ground (arith, get-nil key r empty))
  | inr (t, near) ↦ (t, near, ground (arith, get-nearest key r t v near))
]

route-remove :
    (n : Str) (r : Ring) (t : ℕ)
    → IsValid r
    → elem t r.sorted_tokens ≡ true
    → keeps n r.tokens t ≡ true
    → route (remove n r) t ≡ route r t
unfolding remove
route-remove n r t v here kept =
    let same_node : lookup t (remove n r).tokens ≡ lookup t r.tokens =
      ground (arith, remove_tokens-map n r.sorted_tokens r.tokens t v.distinct) in
    rw same_node (ground (arith, lookup-delete n (string_at (lookup t r.tokens)) r.node_addrs))

route-add_new :
    (n addr : Str) (r : Ring) (t : ℕ)
    → elem t (tokens_of n r.virtual_nodes 0) ≡ true
    → route (add n addr r) t ≡ (n, addr)
route-add_new n addr r t e =
    let j = add-Joined n addr r in
    let owner : lookup t (add n addr r).tokens ≡ some n = ground (arith, j.map t) in
    rw (owner, j.addrs) (ground (arith, lookup-insert n n addr r.node_addrs))

route-add_old :
    (n addr : Str) (r : Ring) (t : ℕ)
    → elem t (tokens_of n r.virtual_nodes 0) ≡ false
    → (route (add n addr r) t ≡ (n, addr)) ⊎ (route (add n addr r) t ≡ route r t)
route-add_old n addr r t e =
    let j = add-Joined n addr r in
    let owner : lookup t (add n addr r).tokens ≡ lookup t r.tokens = ground (arith, j.map t) in
    rw (owner, j.addrs)
      (ground (arith, lookup-insert n (string_at (lookup t r.tokens)) addr r.node_addrs))

-- When a node leaves a valid ring, every key that another node owned keeps its owner and address.
pub get-remove :
    (key n : Str) (r : Ring) {m addr : Str}
    → IsValid r
    → get key r ≡ some (m, addr)
    → m ≢ n
    → get key (remove n r) ≡ some (m, addr)
get-remove key n r v e other =
    let (t, (here, least), same_route) = get-some key r v e in
    let kept : keeps n r.tokens t ≡ true = ground arith in
    let still : IsNearest (hash_key key) (remove n r).sorted_tokens t =
      (ground (arith, elem-remove t), λ u i. least u (ground (arith, elem-remove u))) in
    get-nearest key (remove n r) t (remove-IsValid n r v) still
    ∙ ap some (route-remove n r t v here kept ∙ same_route)
  where
    elem-remove :
        (u : ℕ)
        → elem u (remove n r).sorted_tokens
          ≡ (if elem u r.sorted_tokens then keeps n r.tokens u else false)
    elem-remove u =
        unfold remove in
        ap (elem u) (remove_tokens-list n r.sorted_tokens r.tokens v.distinct)
        ∙ elem-filter_by u (keeps n r.tokens) r.sorted_tokens

-- When a node joins a valid ring and its tokens meet neither one another nor those on the ring, a
-- key moves to it or stays where it was.
pub get-add :
    (key n addr : Str) (r : Ring)
    → IsValid r
    → NoCollision n r
    → (get key (add n addr r) ≡ some (n, addr)) ⊎ (get key (add n addr r) ≡ get key r)
get-add key n addr r v c = elim (nearest key (add n addr r) w) [
  | inl empty ↦ inr (get-nil key (add n addr r) empty ∙ sym (get-nil key r (was_empty empty)))
  | inr (t, near) ↦
      let found = get-nearest key (add n addr r) t w near in
      elim (Bool-cases (elem t (tokens_of n r.virtual_nodes 0))) [
        | inl e ↦ inl (found ∙ ap some (route-add_new n addr r t e))
        | inr e ↦ elim (route-add_old n addr r t e) [
          | inl q ↦ inl (found ∙ ap some q)
          | inr q ↦ inr (found ∙ ap some q ∙ sym (get-nearest key r t v (old t near e)))
        ]
      ]
]
  where
    w : IsValid (add n addr r)
    w = add-IsValid n addr r c v

    old :
        (t : ℕ)
        → IsNearest (hash_key key) (add n addr r).sorted_tokens t
        → elem t (tokens_of n r.virtual_nodes 0) ≡ false
        → IsNearest (hash_key key) r.sorted_tokens t
    old t near e = (
      ground (arith, near.0, elem-add n addr r t),
      λ u i. near.1 u (ground (arith, elem-add n addr r u)),
    )

    was_empty : (add n addr r).sorted_tokens ≡ [] → r.sorted_tokens ≡ []
    was_empty e = go r.sorted_tokens refl
      where
        go : (ts : List ℕ) → r.sorted_tokens ≡ ts → r.sorted_tokens ≡ []
        go [] q = q
        go (x ∷ ts) q = absurd (ground (arith, elem-add n addr r x, ap (elem x) e, ap (elem x) q))
