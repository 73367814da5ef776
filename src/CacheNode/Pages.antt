-- ===== src/CacheNode/Pages.antt =====
-- cmd/cachenode/main.go: the pages for health and metrics of a cache node, and what the debug page of
-- the API (internal/api/debug.go) reads from them. `quote` is the verb %q of package fmt.
use distributed_caching.Prelude.{
  ℕ, ◌+◌, ◌-◌, ◌^◌, ◌≡◌, ◌⊎◌, inl, inr, refl, sym, ap, Bool, true, false, none, some, List, [], ◌∷◌,
  ◌++◌, if◌then◌else◌, ltb, Str, codes, Int64, int64, All, str_key, arith,
}
use distributed_caching.Prelude.Sets.{elem}
use distributed_caching.Prelude.Dict.{Dict, lookup}
use distributed_caching.Policy.{EvictionPolicy}
use distributed_caching.Cluster.Hash.{digits}
use distributed_caching.Cluster.Ring.{Ring, nodes}
use distributed_caching.Cluster.Coordinator.{Coordinator}
use distributed_caching.Cluster.CacheServer.{CacheServer, health, stats}
use distributed_caching.Api.Debug.{
  Client, NodeStatus, url_of, fetch_node_stats, read_health, fetch_node_health, ask_nodes,
  cluster_status,
}

-- The verb %d on an int64
abbrev pub show_int64 : Int64 → Str
show_int64 x =
    if ltb x (int64 0)
    then b'-' ∷ digits (2 ^ 63 - x + 1) (2 ^ 63 - x)
    else digits (x - 2 ^ 63 + 1) (x - 2 ^ 63)

-- The verb %v on a bool
abbrev pub show_bool : Bool → Str
show_bool true = codes "true"
show_bool false = codes "false"

-- The body of /health, for a healthy node and for another.
abbrev pub healthy_body : (Str → Str) → Str → Bool → Str
healthy_body quote node_id is_coord =
    codes "{\"healthy\":true,\"node_id\":"
    ++ quote node_id
    ++ codes ",\"is_coordinator\":"
    ++ show_bool is_coord
    ++ codes "}"

abbrev pub unhealthy_body : (Str → Str) → Str → Str
unhealthy_body quote node_id = codes "{\"healthy\":false,\"node_id\":" ++ quote node_id ++ codes "}"

-- The JSON decoder reads back what the page of a healthy node writes.
abbrev pub ReadsBack : (Str → Str) → Client → Str → Bool → Type 0
ReadsBack quote client node_id b =
    client.decode (healthy_body quote node_id b)
    ≡ some (record { healthy = true; node_id = node_id; is_coordinator = b })

abbrev pub IsHealthy : NodeStatus → Type 0
IsHealthy s = (s.healthy ≡ true) × (s.error ≡ none)

fetch_node_stats-error :
    (client : Client) (id url : Str) → (fetch_node_stats client id url).error ≡ none
unfolding fetch_node_stats
fetch_node_stats-error client id url = ground arith

IsHealthy-snoc :
    (xs : List NodeStatus) (s : NodeStatus)
    → All IsHealthy xs
    → IsHealthy s
    → All IsHealthy (xs ++ s ∷ [])
IsHealthy-snoc [] s h e = (e, tt)
IsHealthy-snoc (x ∷ xs) s h e = (h.0, IsHealthy-snoc xs s h.1 e)

module _ {p : EvictionPolicy} where
  -- The status and the body of /health.
  unfoldable pub health_page : (Str → Str) → Str → CacheServer p → Coordinator → ℕ × Str
  health_page quote node_id server coord =
      let (healthy, is_coord) = health server coord.leader in
      if healthy
      then (200, healthy_body quote node_id is_coord)
      else (503, unhealthy_body quote node_id)

  -- The body of /metrics.
  unfoldable pub metrics_page : Str → CacheServer p → Str
  metrics_page node_id server =
      let (hits, misses, evictions, entries, policy_name) = stats server in
      codes "# cache stats for "
      ++ node_id
      ++ codes " (policy="
      ++ policy_name
      ++ codes ")\ncache_hits "
      ++ show_int64 hits
      ++ codes "\ncache_misses "
      ++ show_int64 misses
      ++ codes "\ncache_evictions "
      ++ show_int64 evictions
      ++ codes "\ncache_entries "
      ++ show_int64 entries
      ++ codes "\n"

  -- The API has an address for the node, and its client gets the node's own page from there.
  abbrev pub IsLive :
      (Str → Str)
      → Client
      → Dict Str Str
      → (Str → CacheServer p)
      → (Str → Coordinator)
      → Str
      → Type 0
  IsLive quote client http_addrs servers coords id =
      (http_addr : Str) × (lookup id http_addrs ≡ some http_addr)
      × (client.new_request (url_of http_addr (codes "/health")) ≡ none)
      × (client.send (url_of http_addr (codes "/health"))
          ≡ some (health_page quote id (servers id) (coords id)).1)

  fetch_node_health-IsHealthy :
      (quote : Str → Str) (client : Client) (server : CacheServer p) (coord : Coordinator)
      (id http_addr : Str)
      → ReadsBack quote client id coord.leader
      → client.new_request (url_of http_addr (codes "/health")) ≡ none
      → client.send (url_of http_addr (codes "/health"))
        ≡ some (health_page quote id server coord).1
      → IsHealthy (fetch_node_health client id http_addr)
        × ((fetch_node_health client id http_addr).is_coordinator ≡ coord.leader)
  unfolding fetch_node_health read_health health_page health
  fetch_node_health-IsHealthy quote client server coord id http_addr reads asked answered =
      rw (asked, fetch_node_health, answered, reads, read_health)
        ((refl, fetch_node_stats-error client id (url_of http_addr (codes "/metrics"))), refl)

  module _ (quote : Str → Str) (client : Client) (http_addrs : Dict Str Str)
      (servers : Str → CacheServer p) (coords : Str → Coordinator) (leader : Str) where
    ask_nodes-leader :
        (ids : List Str) (xs : List NodeStatus) (c : Str)
        → All (λ id. ReadsBack quote client id (coords id).leader) ids
        → All (IsLive quote client http_addrs servers coords) ids
        → All (λ id. (coords id).leader ≡ true → id ≡ leader) ids
        → (coords leader).leader ≡ true
        → (c ≡ leader) ⊎ (elem leader ids ≡ true)
        → All IsHealthy xs
        → All IsHealthy (ask_nodes client http_addrs ids xs c).nodes
          × ((ask_nodes client http_addrs ids xs c).coordinator ≡ leader)
    unfolding ask_nodes
    ask_nodes-leader [] xs c reads live only leads (inl e) h = (h, e)
    ask_nodes-leader [] xs c reads live only leads (inr m) h = absurd (ground arith)
    ask_nodes-leader (id ∷ ids) xs c (reads, more) ((a, found, asked, answered), live) (only, onlys)
          leads m h =
        let (healthy, flag) =
          fetch_node_health-IsHealthy quote client (servers id) (coords id) id a reads asked
            answered in
        let s = fetch_node_health client id a in
        rw (found, ask_nodes)
          (ask_nodes-leader ids (xs ++ s ∷ []) (if s.is_coordinator then id else c) more live onlys
            leads (still s.is_coordinator flag m) (IsHealthy-snoc xs s h healthy))
      where
        still :
            (b : Bool)
            → b ≡ (coords id).leader
            → (c ≡ leader) ⊎ (elem leader (id ∷ ids) ≡ true)
            → ((if b then id else c) ≡ leader) ⊎ (elem leader ids ≡ true)
        still true e m = inl (only (sym e))
        still false e (inl g) = inl g
        still false e (inr g) = inr (elim (str_key.dec id leader) [
          | yes q ↦ cc (e, ap (λ i. (coords i).leader) q, leads)
          | no n ↦ ground arith
        ])

  -- What the debug page says when the cluster works: if the JSON decoder of the API reads back what
  -- the nodes write, the API has an address for every node of the ring and gets the node's own
  -- page from there, and exactly one node of the ring has the flag of the coordinator, then the page
  -- calls every node healthy, without an error, and names that node as the coordinator.
  pub cluster_status-leader :
      (quote : Str → Str) (client : Client) (http_addrs : Dict Str Str)
      (servers : Str → CacheServer p) (coords : Str → Coordinator) (ring : Ring) (leader : Str)
      → All (λ id. ReadsBack quote client id (coords id).leader) (nodes ring)
      → All (IsLive quote client http_addrs servers coords) (nodes ring)
      → All (λ id. (coords id).leader ≡ true → id ≡ leader) (nodes ring)
      → (coords leader).leader ≡ true
      → elem leader (nodes ring) ≡ true
      → All IsHealthy (cluster_status client http_addrs ring).nodes
        × ((cluster_status client http_addrs ring).coordinator ≡ leader)
  unfolding cluster_status
  cluster_status-leader quote client http_addrs servers coords ring leader reads live only leads
        member =
      ask_nodes-leader quote client http_addrs servers coords leader (nodes ring) [] [] reads live
        only leads (inr member) tt
