-- ===== src/CacheNode.antt =====
-- cmd/cachenode/main.go: how the parts of a cache node are put together. The functions of `strings`
-- are those of the Cache-Control parser. A port is taken not to be negative, and the directory of the
-- state file can be made.
pub mod Peers
pub mod Serving
pub mod Pages
use distributed_caching.Prelude.{
  ℕ, zero, suc, ◌+◌, Bool, true, false, Option, none, some, List, [], ◌∷◌, ◌++◌, if◌then◌else◌, ltb,
  ◌==◌, Str, str_key, codes, same, take,
}
use distributed_caching.Prelude.Dict.{Dict, insert}
use distributed_caching.Cache.{InMemoryCache}
use distributed_caching.Cluster.Hash.{digits}
use distributed_caching.Cluster.Ring.{Ring, new_ring, add, nodes, node_addr, string_at}
use distributed_caching.Cluster.Node.{NodeHealth, new_node_health}
use distributed_caching.Cluster.Coordinator.{Coordinator, new_coordinator, set_leader}
use distributed_caching.Cluster.CacheServer.{CacheServer, new_cache_server}
use distributed_caching.Raft.{PeerConfig, RaftNode, StateFile, new_raft_node}
use distributed_caching.Config.{
  Environment, Config, Loaded, loaded, load, build_eviction_policy, build_cache,
}
use distributed_caching.Eviction.Random.{Rand}
use distributed_caching.Proxy.CacheControl.{split_commas, trim_space}

-- `strings.Index(s, ":")`
unfoldable pub index_byte : ℕ → Str → Option ℕ
index_byte c [] = none
index_byte c (b ∷ bs) =
    let rest = index_byte c bs in
    if b == c then some 0 else elim rest [ none ↦ none | some i ↦ some (suc i) ]

-- The ID of a peer: what stands before the first colon, unless that is nothing.
unfoldable pub peer_id : Str → Str
peer_id p = elim (index_byte b':' p) [ none ↦ p | some i ↦ if ltb 0 i then take i p else p ]

abbrev pub peer_of : Str → PeerConfig
peer_of p = record { id = peer_id p; addr = p }

-- The loop of `parsePeers`.
unfoldable pub parse_parts : List Str → List PeerConfig
parse_parts [] = []
parse_parts (part ∷ parts) =
    let rest = parse_parts parts in
    if same (trim_space part) [] then rest else peer_of (trim_space part) ∷ rest

unfoldable pub parse_peers : Str → List PeerConfig
parse_peers peers_flag = if same peers_flag [] then [] else parse_parts (split_commas peers_flag)

-- `fmt.Sprintf("%s:%d", *nodeID, *grpcPort)`
unfoldable pub self_addr : Str → ℕ → Str
self_addr node_id grpc_port = node_id ++ b':' ∷ digits (grpc_port + 1) grpc_port

-- The ring: the node itself, and then its peers.
unfoldable pub add_peers : List PeerConfig → Ring → Ring
add_peers [] r = r
add_peers (p ∷ ps) r = add_peers ps (add p.id p.addr r)

unfoldable pub start_ring : Str → ℕ → List PeerConfig → Ring
start_ring node_id grpc_port peers =
    add_peers peers (add node_id (self_addr node_id grpc_port) new_ring)

-- The health map: every node of the ring counts as available.
unfoldable pub health_map : Ring → List Str → Dict Str NodeHealth
health_map ring [] = []
health_map ring (n ∷ ns) =
    insert n (new_node_health n (string_at (node_addr n ring))) (health_map ring ns)

unfoldable pub start_coordinator : Ring → Coordinator
start_coordinator ring = new_coordinator ring (health_map ring (nodes ring))

-- The goroutine that passes the leaders of raft on to the coordinator.
unfoldable pub on_leader : Str → Str → Coordinator → Coordinator
on_leader node_id leader_id c = set_leader (same leader_id node_id) c

-- The flags of the command line.
pub record Flags : Type 0 where
  pub node_id : Str
  pub grpc_port : ℕ
  pub peers : Str

module _ (r : Rand) (seed : r.State) where
  pub record CacheNode (cfg : Config) : Type 0 where
    pub server : CacheServer (build_eviction_policy r seed cfg.eviction_policy).policy
    pub coordinator : Coordinator
    pub raft : RaftNode

  -- How `main` starts or gives up: the reasons are those of its calls of `log.Fatal`.
  pub data Startup : Type 0 where
    no_id raft_error : Startup
    config_error : Loaded → Startup
    running : (cfg : Config) → CacheNode cfg → Startup

  unfoldable pub start_node : Flags → Config → StateFile → Startup
  start_node flags cfg file =
      let peers = parse_peers flags.peers in
      elim (new_raft_node flags.node_id peers file) [
        | none ↦ raft_error
        | some node ↦ running cfg (record {
          server = new_cache_server flags.node_id (build_cache r seed cfg);
          coordinator = start_coordinator (start_ring flags.node_id flags.grpc_port peers);
          raft = node;
        })
      ]

  unfoldable pub start : Environment → Flags → StateFile → Startup
  start env flags file =
      if same flags.node_id []
      then no_id
      else elim (load env) [ loaded cfg ↦ start_node flags cfg file | e ↦ config_error e ]
