-- ===== src/ApiProcess/Status.antt =====
-- cmd/api/main.go and internal/api/debug.go: the page on the cluster over the ring and the addresses
-- that the API process has read from its settings.
use distributed_caching.Prelude.{
  ◌≡◌, ◌≢◌, refl, subst, Bool, true, false, Option, none, some, List, [], ◌∷◌, ◌++◌, map,
  if◌then◌else◌, Str, str_key, arith, inl, inr, All, Bool-cases, same, if_pos, if_neg,
}
use distributed_caching.Prelude.Dict.{Dict, lookup, has, has-insert, has-true}
use distributed_caching.Cluster.Ring.{new_ring, nodes}
use distributed_caching.Cluster.Ring.Valid.{add-Joined}
use distributed_caching.Api.Debug.{
  Client, NodeStatus, not_configured, fetch_node_health, read_health, fetch_node_stats, ask_nodes,
  cluster_status,
}
use distributed_caching.Proxy.CacheControl.{split_commas, trim_space}
use distributed_caching.ApiProcess.{
  Cluster, split_colon, node_id_of, http_addr, add_node, add_split, add_nodes, start_cluster,
}

-- An address that has a colon has a port behind it.
abbrev pub HasPort : Str → Type 0
HasPort part = (host port : Str) → split_colon (trim_space part) ≡ some (host, port) → port ≢ []

-- Every node of the ring has an address for its pages.
abbrev IsAddressed : Cluster → Type 0
IsAddressed c = (j : Str) → has j c.ring.node_addrs ≡ true → has j c.http_addrs ≡ true

add_node-IsAddressed :
    (addr host port : Str) (c : Cluster)
    → port ≢ []
    → IsAddressed c
    → IsAddressed (add_node addr host port c)
unfolding add_node
add_node-IsAddressed addr host port c named h j held =
    let joined = (add-Joined (node_id_of host) addr c.ring).addrs in
    rw (if_neg (str_key.dec port []) named) (
      ground (
        arith,
        has-insert (node_id_of host) j (http_addr host port) c.http_addrs,
        has-insert (node_id_of host) j addr c.ring.node_addrs,
        subst (λ m. has j m ≡ true) joined held,
        h j,
      ))

add_split-IsAddressed :
    (addr : Str) (r : Option (Str × Str)) (c : Cluster)
    → ((host port : Str) → r ≡ some (host, port) → port ≢ [])
    → IsAddressed c
    → IsAddressed (add_split addr r c)
add_split-IsAddressed addr none c named h = h
add_split-IsAddressed addr (some (host, port)) c named h =
    add_node-IsAddressed addr host port c (named host port refl) h

either-IsAddressed :
    (b : Bool) (c d : Cluster) → IsAddressed c → IsAddressed d → IsAddressed (if b then c else d)
either-IsAddressed true c d h k = h
either-IsAddressed false c d h k = k

add_nodes-IsAddressed :
    (parts : List Str) (c : Cluster)
    → All HasPort parts
    → IsAddressed c
    → IsAddressed (add_nodes parts c)
unfolding add_nodes
add_nodes-IsAddressed [] c ports h = h
add_nodes-IsAddressed (part ∷ parts) c ports h =
    add_nodes-IsAddressed parts
      (if same (trim_space part) []
        then c
        else add_split (trim_space part) (split_colon (trim_space part)) c)
      ports.1
      (either-IsAddressed (same (trim_space part) []) c _ h
        (add_split-IsAddressed (trim_space part) (split_colon (trim_space part)) c ports.0 h))

start_cluster-IsAddressed : (s : Str) → All HasPort (split_commas s) → IsAddressed (start_cluster s)
unfolding start_cluster new_ring lookup
start_cluster-IsAddressed s ports = elim (Bool-cases (same s [])) [
  | inl e ↦ rw e (λ j h. h)
  | inr e ↦ rw e (
      add_nodes-IsAddressed (split_commas s) (record { ring = new_ring; http_addrs = [] }) ports
        (λ j h. h))
]

abbrev pub IsAsked : NodeStatus → Type 0
IsAsked s = s.error ≢ some not_configured

fetch_node_health-IsAsked : (client : Client) (id a : Str) → IsAsked (fetch_node_health client id a)
unfolding fetch_node_health read_health fetch_node_stats
fetch_node_health-IsAsked client id a h = ground arith

IsAsked-snoc :
    (xs : List NodeStatus) (s : NodeStatus)
    → All IsAsked xs
    → IsAsked s
    → All IsAsked (xs ++ s ∷ [])
IsAsked-snoc [] s h e = (e, tt)
IsAsked-snoc (x ∷ xs) s h e = (h.0, IsAsked-snoc xs s h.1 e)

ask_nodes-IsAsked :
    (client : Client) (http_addrs : Dict Str Str) (ids : List Str) (xs : List NodeStatus) (c : Str)
    → All (λ id. has id http_addrs ≡ true) ids
    → All IsAsked xs
    → All IsAsked (ask_nodes client http_addrs ids xs c).nodes
unfolding ask_nodes
ask_nodes-IsAsked client http_addrs [] xs c known h = h
ask_nodes-IsAsked client http_addrs (id ∷ ids) xs c known h =
    let (a, e) = has-true id http_addrs known.0 in
    rw (e, ask_nodes)
      (ask_nodes-IsAsked client http_addrs ids _ _ known.1
        (IsAsked-snoc xs (fetch_node_health client id a) h (fetch_node_health-IsAsked client id a)))

node_addrs_known :
    (m : Dict Str Str) (addrs : Dict Str Str)
    → ((j : Str) → has j m ≡ true → has j addrs ≡ true)
    → All (λ id. has id addrs ≡ true) (map (λ e. e.0) m)
unfolding lookup
node_addrs_known [] addrs h = tt
node_addrs_known ((k, a) ∷ m) addrs h = (
  h k (rw (if_pos (str_key.dec k k) refl) refl),
  node_addrs_known m addrs (λ j e. h j (elim (str_key.dec k j) [
    | yes p ↦ rw (if_pos (str_key.dec k j) p) refl
    | no n ↦ rw (if_neg (str_key.dec k j) n) e
  ])),
)

-- If every address in the setting of the cache nodes that has a colon also has a port, then the page
-- on the cluster asks every node of the ring that the API process has built from the setting,
-- whatever the nodes answer: for no node it says that the address is not configured.
pub cluster_status-IsAsked :
    (client : Client) (setting : Str)
    → All HasPort (split_commas setting)
    → All IsAsked
        (cluster_status client
          (start_cluster setting).http_addrs
          (start_cluster setting).ring).nodes
unfolding cluster_status nodes
cluster_status-IsAsked client setting ports =
    ask_nodes-IsAsked client (start_cluster setting).http_addrs _ [] []
      (node_addrs_known (start_cluster setting).ring.node_addrs (start_cluster setting).http_addrs
        (start_cluster-IsAddressed setting ports))
      tt
