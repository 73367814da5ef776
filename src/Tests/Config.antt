-- ===== src/Tests/Config.antt =====
-- internal/shared/config.go and cmd/cachenode/main.go: settings and a small cluster.
use distributed_caching.Prelude.{
  ◌≡◌, ◌≤◌, refl, true, none, some, List, [], ◌∷◌, Str, codes, str_key, same, Str-discrete, seconds,
  if◌then◌else◌, int64,
}
use distributed_caching.Prelude.Sets.{elem}
use distributed_caching.Cache.{len}
use distributed_caching.Cache.Reads.{Call, set_call, run}
use distributed_caching.Cluster.Coordinator
use distributed_caching.Cluster.Coordinator.{RouteResult}
use distributed_caching.Cluster.Ring.{node_addr}
use distributed_caching.Config.{
  Environment, loaded, invalid_cache_capacity, load, read_config, validate, get_env, get_env_int,
  build_cache, build_eviction_policy, nat_of,
}
use distributed_caching.Config.Limits.{load-run}
use distributed_caching.CacheNode.{
  parse_peers, peer_of, peer_id, index_byte, start_coordinator, on_leader,
}
use distributed_caching.ApiProcess.{delete_all, node_id_of, http_addr}
use distributed_caching.Proxy.CacheControl.{has_prefix}
use distributed_caching.CacheNode.Peers.{IsAddress, Part, blank, peer_part, parse_peers-join_commas}
use distributed_caching.CacheNode.Serving.{ring, route-on_leader}
use distributed_caching.Tests.Eviction.{turns}
use distributed_caching.Proxy.CacheControl.{atoi, digits_value}

abbrev with_capacity : Str → Environment
with_capacity text key =
    if same key (codes "EVICTION_POLICY")
    then codes "lfu"
    else if same key (codes "CACHE_CAPACITY")
    then text
    else []

program : Unit {0}
unfolding read_config validate get_env get_env_int atoi digits_value Str-discrete
program = tt

accepted : load (with_capacity (codes "2")) ≡ loaded (read_config (with_capacity (codes "2")))
unfolding program
accepted = refl

too_small : load (with_capacity (codes "0")) ≡ invalid_cache_capacity (int64 0)
unfolding program
too_small = refl

-- A capacity that is no number counts as not set.
not_a_number : (read_config (with_capacity (codes "many"))).cache_capacity ≡ int64 10_000
unfolding program
not_a_number = refl

abbrev calls : List Call
calls =
    set_call (codes "a") (codes "1") (seconds 60) 1000
    ∷ set_call (codes "b") (codes "2") (seconds 60) 1001
    ∷ set_call (codes "c") (codes "3") (seconds 60) 1002
    ∷ []

load-run_example :
    let cfg = read_config (with_capacity (codes "2")) in
    ((build_eviction_policy turns 0 cfg.eviction_policy).policy.name ≡ cfg.eviction_policy)
    × (len (run (build_cache turns 0 cfg) calls) ≤ nat_of cfg.cache_capacity)
    × (nat_of cfg.cache_capacity ≤ 1_000_000)
load-run_example = load-run turns 0 (with_capacity (codes "2")) calls accepted

abbrev node2 : Str
node2 = codes "node2:9002"

abbrev node3 : Str
node3 = codes "node3:9003"

node2-IsAddress : IsAddress (record { id = codes "node2"; port = some (codes "9002") })
node2-IsAddress = record {
  nonempty = λ e. cc;
  whole = (refl, (refl, (refl, (refl, (refl, tt)))));
  plain = ((refl, refl), ((refl, refl), ((refl, refl), ((refl, refl), ((refl, refl), tt)))));
  port = ((refl, refl), ((refl, refl), ((refl, refl), ((refl, refl), tt))));
}

node3-IsAddress : IsAddress (record { id = codes "node3"; port = some (codes "9003") })
node3-IsAddress = record {
  nonempty = λ e. cc;
  whole = (refl, (refl, (refl, (refl, (refl, tt)))));
  plain = ((refl, refl), ((refl, refl), ((refl, refl), ((refl, refl), ((refl, refl), tt)))));
  port = ((refl, refl), ((refl, refl), ((refl, refl), ((refl, refl), tt))));
}

abbrev two_parts : List Part
two_parts =
    blank []
    ∷ peer_part (codes " ") (record { id = codes "node3"; port = some (codes "9003") }) []
    ∷ []

abbrev first_part : Part
first_part = peer_part [] (record { id = codes "node2"; port = some (codes "9002") }) (codes " ")

parse_peers-join_commas_example :
    parse_peers (codes "node2:9002 ,, node3:9003")
    ≡ record { id = codes "node2"; addr = node2 } ∷ record { id = codes "node3"; addr = node3 } ∷ []
parse_peers-join_commas_example =
    parse_peers-join_commas first_part two_parts (tt, node2-IsAddress, (refl, tt))
      (tt, (((refl, tt), node3-IsAddress, tt), tt))

peer_of_node2 : peer_id node2 ≡ codes "node2"
unfolding peer_id index_byte
peer_of_node2 = refl

route-on_leader_example :
    (r : RouteResult) × (Coordinator.route (codes "product:1") (
        on_leader
          (codes "node1")
          (codes "node1")
          (start_coordinator (ring (codes "node1") 9001 (peer_of node2 ∷ peer_of node3 ∷ []))))
      ≡ (r, true, none))
    × (elem r.node_id (codes "node1" ∷ peer_id node2 ∷ peer_id node3 ∷ []) ≡ true)
    × (node_addr r.node_id (ring (codes "node1") 9001 (peer_of node2 ∷ peer_of node3 ∷ []))
        ≡ some r.addr)
route-on_leader_example =
    route-on_leader (codes "node1") 9001 (peer_of node2 ∷ peer_of node3 ∷ []) (codes "product:1")

-- The API process calls the node by another name than it has itself, so that their rings differ.
other_names : node_id_of (codes "cache-node-1") ≡ codes "node-1"
unfolding delete_all has_prefix
other_names = refl

-- The debug page asks the right port.
second_port : http_addr (codes "cache-node-2") (codes "9002") ≡ codes "cache-node-2:9102"
unfolding Str-discrete
second_port = refl
