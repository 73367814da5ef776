-- ===== src/Tests/Cluster.antt =====
-- internal/cluster: a small ring, and a coordinator on it.
use distributed_caching.Prelude.{
  ◌≡◌, refl, ap, get_or, [], ◌∷◌, some, ◌⊎◌, arith, Str, codes, Str-discrete, str_key, nat_key,
}
use distributed_caching.Prelude.Dict.{lookup, insert, delete}
use distributed_caching.Cluster.Hash.{hash_key, token_name}
use distributed_caching.Cluster.Ring.{
  Ring, add, remove, get, add_tokens, remove_tokens, sort, insert_sorted, sort_search, search_loop,
}
use distributed_caching.Cluster.Ring.Valid.{IsValid, NoCollision, add-IsValid, remove-IsValid}
use distributed_caching.Cluster.Ring.Routing.{IsNearest, route, get-nearest, get-remove, get-add}

-- A ring with two tokens for each node.
abbrev empty : Ring
empty = record { tokens = []; sorted_tokens = []; node_addrs = []; virtual_nodes = 2 }

abbrev pub n1 : Str
n1 = codes "node1"

abbrev pub n2 : Str
n2 = codes "node2"

abbrev pub a1 : Str
a1 = codes "h1:1"

abbrev pub a2 : Str
a2 = codes "h2:2"

program : Unit {0}
unfolding hash_key token_name add remove get add_tokens remove_tokens sort insert_sorted sort_search
    search_loop lookup insert delete
program = tt

empty-IsValid : IsValid empty
empty-IsValid = record { sorted = tt; distinct = tt; sized = λ t e. cc; owned = λ t e. cc }

empty-NoCollision : NoCollision n1 empty
unfolding program
empty-NoCollision = record { apart = (refl, (refl, tt)); free = λ t e. refl }

abbrev one : Ring
one = add n1 a1 empty

one-IsValid : IsValid one
one-IsValid = add-IsValid n1 a1 empty empty-NoCollision empty-IsValid

one_tokens : one.sorted_tokens ≡ sort (hash_key (token_name n1 0) ∷ hash_key (token_name n1 1) ∷ [])
unfolding program
one_tokens = refl

abbrev pub two : Ring
two = add n2 a2 one

one-NoCollision : NoCollision n2 one
unfolding program
one-NoCollision = record { apart = (refl, (refl, tt)); free = λ t e. ground arith }

two-IsValid : IsValid two
two-IsValid = add-IsValid n2 a2 one one-NoCollision one-IsValid

add-IsValid_example : IsValid two
add-IsValid_example = add-IsValid n2 a2 one one-NoCollision one-IsValid

remove-IsValid_example : IsValid (remove n1 two)
remove-IsValid_example = remove-IsValid n1 two two-IsValid

abbrev pub key : Str
key = codes "user:42"

pub owner : get key two ≡ some (n2, a2)
unfolding program Str-discrete
owner = refl

get-remove_example : get key (remove n1 two) ≡ some (n2, a2)
get-remove_example =
    get-remove key n1 two two-IsValid owner (λ e. omega (arith, ap (λ s. get_or s 4 0) e))

get-add_example : (get key two ≡ some (n2, a2)) ⊎ (get key two ≡ get key one)
get-add_example = get-add key n2 a2 one one-IsValid one-NoCollision

-- The nearest token of the key, and the distances of the others.
near : IsNearest (hash_key key) two.sorted_tokens 1300414608
unfolding program Str-discrete
near = (refl, λ u e. ground arith)

get-nearest_example : get key two ≡ some (route two 1300414608)
get-nearest_example = get-nearest key two 1300414608 two-IsValid near
