-- ===== src/Api/Debug.antt =====
-- internal/api/debug.go: the pages that show where a key belongs and how the nodes are. The HTTP
-- client, the JSON decoder and the scanner of the counters are parameters.
pub mod Pages
use distributed_caching.Prelude.{
  ◌≡◌, ◌≢◌, refl, Bool, true, false, Option, none, some, List, [], ◌∷◌, ◌++◌, map, if◌then◌else◌,
  Str, str_key, Time, same, codes, Int64, int64, is_some, arith, ap, ◌⊎◌, inl, inr, All, Bool-cases,
  Option-cases,
}
use distributed_caching.Prelude.Dict.{Dict, lookup}
use distributed_caching.Cluster.Ring.{Ring, nodes}
use distributed_caching.Cluster.Ring
use distributed_caching.Cluster.Coordinator.{Coordinator}
use distributed_caching.Api.Invalidation.{SharedCache}

-- `health` and the four counters of a metrics page
pub record Health : Type 0 where
  pub healthy : Bool
  pub node_id : Str
  pub is_coordinator : Bool

pub record Counters : Type 0 where
  pub hits : Int64
  pub misses : Int64
  pub evictions : Int64
  pub entries : Int64

-- What the client makes of a URL while one page is served: the text of the error if there is no
-- request, and the body of the answer if there is one in time. `decode` is the JSON decoder, and
-- `scan` what `Fscanf` leaves in the four counters.
pub record Client : Type 0 where
  pub new_request : Str → Option Str
  pub send : Str → Option Str
  pub decode : Str → Option Health
  pub scan : Str → Counters

pub data NodeError : Type 0 where
  not_configured : NodeError
  bad_request : Str → NodeError
  unreachable : NodeError
  bad_response : NodeError

pub record NodeStatus : Type 0 where
  pub node_id : Str
  pub healthy : Bool
  pub is_coordinator : Bool
  pub entry_count : Int64
  pub hit_count : Int64
  pub miss_count : Int64
  pub eviction_count : Int64
  pub error : Option NodeError

abbrev pub empty_status : Str → Option NodeError → NodeStatus
empty_status node_id error = record {
  node_id = node_id;
  healthy = false;
  is_coordinator = false;
  entry_count = int64 0;
  hit_count = int64 0;
  miss_count = int64 0;
  eviction_count = int64 0;
  error = error;
}

abbrev pub count_status : Str → Counters → NodeStatus
count_status node_id c = record {
  node_id = node_id;
  healthy = false;
  is_coordinator = false;
  entry_count = c.entries;
  hit_count = c.hits;
  miss_count = c.misses;
  eviction_count = c.evictions;
  error = none;
}

unfoldable pub fetch_node_stats : Client → Str → Str → NodeStatus
fetch_node_stats client node_id url = elim (client.new_request url) [
  | some e ↦ empty_status node_id none
  | none ↦ elim (client.send url) [
    | none ↦ empty_status node_id none
    | some body ↦ count_status node_id (client.scan body)
  ]
]

abbrev pub url_of : Str → Str → Str
url_of http_addr path = codes "http://" ++ http_addr ++ path

-- What `fetchNodeHealth` does with the answer, decoded or not.
unfoldable pub read_health : Client → Str → Str → Option Health → NodeStatus
read_health client node_id http_addr none = empty_status node_id (some bad_response)
read_health client node_id http_addr (some health) =
    record (fetch_node_stats client node_id (url_of http_addr (codes "/metrics"))) {
      node_id = node_id;
      healthy = health.healthy;
      is_coordinator = health.is_coordinator;
    }

unfoldable pub fetch_node_health : Client → Str → Str → NodeStatus
fetch_node_health client node_id http_addr =
    let url = url_of http_addr (codes "/health") in
    elim (client.new_request url) [
      | some e ↦ empty_status node_id (some (bad_request e))
      | none ↦ elim (client.send url) [
        | none ↦ empty_status node_id (some unreachable)
        | some body ↦ read_health client node_id http_addr (client.decode body)
      ]
    ]

pub record ClusterStatus : Type 0 where
  pub nodes : List NodeStatus
  pub coordinator : Str

-- The loop over the nodes, with the statuses and the coordinator so far.
unfoldable pub ask_nodes : Client → Dict Str Str → List Str → List NodeStatus → Str → ClusterStatus
ask_nodes client http_addrs [] statuses coordinator = record {
  nodes = statuses;
  coordinator = coordinator;
}
ask_nodes client http_addrs (id ∷ ids) statuses coordinator = elim (lookup id http_addrs) [
  | none ↦
      ask_nodes client http_addrs ids (statuses ++ empty_status id (some not_configured) ∷ [])
        coordinator
  | some http_addr ↦
      let status = fetch_node_health client id http_addr in
      ask_nodes client http_addrs ids (statuses ++ status ∷ [])
        (if status.is_coordinator then id else coordinator)
]

unfoldable pub cluster_status : Client → Dict Str Str → Ring → ClusterStatus
cluster_status client http_addrs ring = ask_nodes client http_addrs (nodes ring) [] []

pub record CacheDebug : Type 0 where
  pub key : Str
  pub owner_node : Str
  pub owner_addr : Str
  pub in_cache : Bool
  pub cache_status : Str
  pub is_coordinator : Bool

abbrev pub owner_of : Option (Str × Str) → Str × Str
owner_of none = (codes "unknown", [])
owner_of (some owner) = owner

-- An error of the cache counts as a miss.
abbrev pub was_found : Option (Option Str) → Bool
was_found none = false
was_found (some r) = is_some r

-- No page stands for the status 400.
unfoldable pub cache_debug :
    (cache : SharedCache)
    → Str
    → Time
    → Ring
    → Coordinator
    → cache.State
    → cache.State × Option CacheDebug
cache_debug cache key now ring coordinator state =
    if same key []
    then (state, none)
    else (let (state', found) = cache.get key now state in
        let (owner_node, owner_addr) = owner_of (Ring.get key ring) in
        (
          state',
          some (record {
            key = key;
            owner_node = owner_node;
            owner_addr = owner_addr;
            in_cache = was_found found;
            cache_status = if was_found found then codes "HIT" else codes "MISS";
            is_coordinator = coordinator.leader;
          }),
        ))
