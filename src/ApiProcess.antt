-- ===== src/ApiProcess.antt =====
-- cmd/api/main.go: the ring of the API process and the addresses of its debug pages, from the list
-- of cache nodes in the settings.
pub mod Status
use distributed_caching.Prelude.{
  ℕ, zero, suc, ◌-◌, true, Option, none, some, List, [], ◌∷◌, ◌++◌, if◌then◌else◌, ◌==◌, Str,
  str_key, codes, same, length,
}
use distributed_caching.Prelude.Dict.{Dict, insert}
use distributed_caching.Cluster.Ring.{Ring, new_ring, add}
use distributed_caching.Cluster.Coordinator.{Coordinator, set_leader}
use distributed_caching.CacheNode.{start_coordinator}
use distributed_caching.Proxy.CacheControl.{split_commas, trim_space, has_prefix}

-- What stands before the first colon, and what after it; none without a colon.
unfoldable pub split_colon : Str → Option (Str × Str)
split_colon [] = none
split_colon (b ∷ bs) =
    let rest = split_colon bs in
    if b == b':'
    then some ([], bs)
    else elim rest [ none ↦ none | some (before, after) ↦ some (b ∷ before, after) ]

-- `strings.ReplaceAll(s, sub, "")`, for a `sub` that is not empty: the number counts the bytes of a
-- `sub` that are still to be passed over.
unfoldable pub delete_all : Str → ℕ → Str → Str
delete_all sub n [] = []
delete_all sub (suc n) (b ∷ bs) = delete_all sub n bs
delete_all sub zero (b ∷ bs) =
    let skipped = delete_all sub (length sub - 1) bs in
    let kept = delete_all sub zero bs in if has_prefix (b ∷ bs) sub then skipped else b ∷ kept

-- The `nodeID` of a host name.
abbrev pub node_id_of : Str → Str
node_id_of host = delete_all (codes "cache-") 0 host

-- The address for health and metrics of a node.
abbrev pub http_addr : Str → Str → Str
http_addr host port =
    host
    ++ (if same port (codes "9001")
        then codes ":9101"
        else if same port (codes "9002")
        then codes ":9102"
        else if same port (codes "9003")
        then codes ":9103"
        else codes ":9101")

pub record Cluster : Type 0 where
  pub ring : Ring
  pub http_addrs : Dict Str Str

-- The body of the loop for a host and a port: a read from an empty port fails, so that such a node
-- gets no address.
unfoldable pub add_node : Str → Str → Str → Cluster → Cluster
add_node addr host port c = record {
  ring = add (node_id_of host) addr c.ring;
  http_addrs =
      if same port []
      then c.http_addrs
      else insert (node_id_of host) (http_addr host port) c.http_addrs;
}

abbrev pub add_split : Str → Option (Str × Str) → Cluster → Cluster
add_split addr none c = c
add_split addr (some (host, port)) c = add_node addr host port c

unfoldable pub add_nodes : List Str → Cluster → Cluster
add_nodes [] c = c
add_nodes (part ∷ parts) c =
    let addr = trim_space part in
    add_nodes parts (if same addr [] then c else add_split addr (split_colon addr) c)

unfoldable pub start_cluster : Str → Cluster
start_cluster cache_cluster_addr =
    let empty : Cluster = record { ring = new_ring; http_addrs = [] } in
    if same cache_cluster_addr [] then empty else add_nodes (split_commas cache_cluster_addr) empty

-- The coordinator of the debug pages, which counts as the leader.
unfoldable pub debug_coordinator : Cluster → Coordinator
debug_coordinator c = set_leader true (start_coordinator c.ring)
