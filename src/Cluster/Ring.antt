-- ===== src/Cluster/Ring.antt =====
-- internal/cluster/ring.go: the consistent hashing ring. The lock makes each method one step.
-- `sort.Slice` on numbers and `sort.Search` belong to the standard library: an insertion sort, and
-- the binary search that the package documents.
pub mod Sorting
pub mod Search
pub mod Valid
pub mod Nearest
pub mod Routing
use distributed_caching.Prelude.{
  ℕ, zero, suc, ◌+◌, ◌-◌, ◌/◌, ◌%◌, ◌^◌, ◌<◌, ◌≡◌, refl, Bool, true, false, not, List, [], ◌∷◌,
  ◌++◌, map, Option, none, some, Str, codes, ltb, leb, ◌==◌, if◌then◌else◌, arith, get_or, length,
  str_key, nat_key, same, ite,
}
use distributed_caching.Prelude.Dict.{Dict, lookup, insert, delete}
use distributed_caching.Cluster.Hash.{hash_key, token_name}

abbrev pub default_virtual_nodes : ℕ
default_virtual_nodes = 150

pub record Ring : Type 0 where
  pub tokens : Dict ℕ Str
  pub sorted_tokens : List ℕ
  pub node_addrs : Dict Str Str
  pub virtual_nodes : ℕ

unfoldable pub new_ring : Ring
new_ring = record {
  tokens = [];
  sorted_tokens = [];
  node_addrs = [];
  virtual_nodes = default_virtual_nodes;
}

-- `m[k]`, which is the empty string for a key that is not there
abbrev pub string_at : Option Str → Str
string_at none = []
string_at (some s) = s

-- The sort of `Add`.
unfoldable pub insert_sorted : ℕ → List ℕ → List ℕ
insert_sorted t [] = t ∷ []
insert_sorted t (x ∷ xs) = if leb t x then t ∷ x ∷ xs else x ∷ insert_sorted t xs

unfoldable pub sort : List ℕ → List ℕ
sort [] = []
sort (x ∷ xs) = insert_sorted x (sort xs)

-- The loop of `Add` over the virtual nodes, `rounds` of them from `i` on.
unfoldable pub add_tokens : Str → ℕ → ℕ → Ring → Ring
add_tokens node_id zero i r = r
add_tokens node_id (suc rounds) i r =
    let token = hash_key (token_name node_id i) in
    add_tokens node_id rounds (i + 1) (record r {
      tokens = insert token node_id r.tokens;
      sorted_tokens = r.sorted_tokens ++ token ∷ [];
    })

unfoldable pub add : Str → Str → Ring → Ring
add node_id addr r =
    let r' =
      add_tokens node_id r.virtual_nodes 0
        (record r { node_addrs = insert node_id addr r.node_addrs }) in
    record r' { sorted_tokens = sort r'.sorted_tokens }

-- The loop of `Remove`: what is left of the token list, and of the token map.
unfoldable pub remove_tokens : Str → List ℕ → Dict ℕ Str → List ℕ × Dict ℕ Str
remove_tokens node_id [] tokens = ([], tokens)
remove_tokens node_id (t ∷ ts) tokens =
    let dropped = remove_tokens node_id ts (delete t tokens) in
    let rest = remove_tokens node_id ts tokens in
    if same (string_at (lookup t tokens)) node_id then dropped else (t ∷ rest.0, rest.1)

unfoldable pub remove : Str → Ring → Ring
remove node_id r =
    let (kept, tokens) = remove_tokens node_id r.sorted_tokens r.tokens in
    record r { node_addrs = delete node_id r.node_addrs; tokens = tokens; sorted_tokens = kept }

-- `sort.Search(n, f)`: the interval from `i` to `j`, on fuel.
unfoldable pub search_loop : ℕ → (ℕ → Bool) → ℕ → ℕ → ℕ
search_loop zero f i j = i
search_loop (suc fuel) f i j =
    let h = (i + j) / 2 in
    let left = search_loop fuel f i h in
    let right = search_loop fuel f (h + 1) j in if ltb i j then (if f h then left else right) else i

unfoldable pub sort_search : ℕ → (ℕ → Bool) → ℕ
sort_search n f = search_loop (n + 1) f 0 n

unfoldable pub get : Str → Ring → Option (Str × Str)
get key r =
    if length r.sorted_tokens == 0
    then none
    else (let position = hash_key key in
        let idx =
          sort_search (length r.sorted_tokens) (λ i. leb position (get_or r.sorted_tokens i 0)) in
        let idx' = if idx == length r.sorted_tokens then 0 else idx in
        let token = get_or r.sorted_tokens idx' 0 in
        let node_id = string_at (lookup token r.tokens) in
        some (node_id, string_at (lookup node_id r.node_addrs)))

-- Go ranges over the map of addresses in any order; here it is the order of the list.
unfoldable pub nodes : Ring → List Str
nodes r = map (λ e. e.0) r.node_addrs

unfoldable pub node_addr : Str → Ring → Option Str
node_addr node_id r = lookup node_id r.node_addrs
