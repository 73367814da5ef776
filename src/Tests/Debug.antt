-- ===== src/Tests/Debug.antt =====
-- internal/api/debug.go: the page on a cluster of two nodes that the API process has read from its
-- settings.
use distributed_caching.Prelude.{
  ℕ, ◌≡◌, refl, ap, true, false, ◌∷◌, Option, none, some, [], arith, Str, codes, Str-discrete, All,
  int64, get_or, if◌then◌else◌, same, str_key,
}
use distributed_caching.Cluster.Coordinator.{Coordinator, new_coordinator, set_leader}
use distributed_caching.Cluster.CacheServer.{CacheServer, new_cache_server, health}
use distributed_caching.Eviction.Lru.{lru_policy}
use distributed_caching.Eviction.Lru.Shape.{lru_cache}
use distributed_caching.CacheNode.{on_leader}
use distributed_caching.CacheNode.Pages.{
  health_page, healthy_body, IsHealthy, cluster_status-leader,
}
use distributed_caching.Prelude.Dict.{Dict, lookup, insert}
use distributed_caching.Cluster.Ring.{nodes, new_ring, add, Ring, add_tokens}
use distributed_caching.Api.Debug.{
  Client, ClusterStatus, cluster_status, ask_nodes, fetch_node_health, read_health,
  fetch_node_stats,
}
use distributed_caching.Proxy.CacheControl.{split_commas, trim_left, trim_right}
use distributed_caching.ApiProcess.{start_cluster, split_colon}
use distributed_caching.ApiProcess.Status.{HasPort, IsAsked, cluster_status-IsAsked}

-- The second node answers as the coordinator, and the first not at all.
abbrev client : Client
client = record {
  new_request = λ url. none;
  send = λ url. if same url (codes "http://cache-node-1:9101/health") then none else some url;
  decode = λ body. some (record { healthy = true; node_id = []; is_coordinator = true });
  scan =
      λ body. record { hits = int64 0; misses = int64 0; evictions = int64 0; entries = int64 0 };
}

abbrev setting : Str
setting = codes "cache-node-1:9001, cache-node-2:9002"

abbrev first_of : Option (Str × Str) → ℕ
first_of none = 0
first_of (some (host, port)) = get_or port 0 0

ports : All HasPort (split_commas setting)
unfolding split_commas trim_left trim_right split_colon Str-discrete
ports = (
  λ host port e none_left. omega (arith, ap first_of e, ap (λ s. get_or s 0 0) none_left),
  (λ host port e none_left. omega (arith, ap first_of e, ap (λ s. get_or s 0 0) none_left), tt),
)

abbrev status : ClusterStatus
status = cluster_status client (start_cluster setting).http_addrs (start_cluster setting).ring

cluster_status-IsAsked_example : All IsAsked status.nodes
cluster_status-IsAsked_example = cluster_status-IsAsked client setting ports

-- On a ring whose keys are not spread over tokens, which the page does not look at.
abbrev small : Ring
small =
    add (codes "node-2") (codes "cache-node-2:9002")
      (add (codes "node-1") (codes "cache-node-1:9001") (record new_ring { virtual_nodes = 0 }))

named_second :
    (cluster_status client
      (insert
        (codes "node-2")
        (codes "cache-node-2:9102")
        (insert (codes "node-1") (codes "cache-node-1:9101") []))
      small).coordinator
    ≡ codes "node-2"
unfolding cluster_status ask_nodes fetch_node_health read_health fetch_node_stats lookup insert
    nodes new_ring add add_tokens Str-discrete
named_second = refl

-- Two live nodes, of which the second has the flag of the coordinator.
abbrev second_leads : Str → Coordinator
second_leads id = on_leader id (codes "node-2") (new_coordinator new_ring [])

abbrev server_of : Str → CacheServer lru_policy
server_of id = new_cache_server id (lru_cache 2)

abbrev plain : Str → Str
plain s = s

abbrev live : Client
live = record {
  new_request = λ url. none;
  send = λ url.
      if same url (codes "http://a/health")
      then some
          (health_page plain (codes "node-1") (server_of (codes "node-1"))
            (second_leads (codes "node-1"))).1
      else some
          (health_page plain (codes "node-2") (server_of (codes "node-2"))
            (second_leads (codes "node-2"))).1;
  decode = λ body.
      if same body (healthy_body plain (codes "node-1") false)
      then some (record { healthy = true; node_id = codes "node-1"; is_coordinator = false })
      else some (record { healthy = true; node_id = codes "node-2"; is_coordinator = true });
  scan =
      λ body. record { hits = int64 0; misses = int64 0; evictions = int64 0; entries = int64 0 };
}

abbrev addrs : Dict Str Str
addrs = (codes "node-1", codes "a") ∷ (codes "node-2", codes "b") ∷ []

abbrev pair : Ring
pair = record new_ring { node_addrs = addrs }

cluster_status-leader_example :
    All IsHealthy (cluster_status live addrs pair).nodes
    × ((cluster_status live addrs pair).coordinator ≡ codes "node-2")
unfolding nodes new_ring on_leader set_leader new_coordinator lookup Str-discrete health_page health
cluster_status-leader_example =
    cluster_status-leader plain live addrs server_of second_leads pair (codes "node-2")
      (refl, (refl, tt)) ((codes "a", refl, refl, refl), ((codes "b", refl, refl, refl), tt))
      ((λ e. ground arith), ((λ e. refl), tt)) refl refl
