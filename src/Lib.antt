-- ===== src/Lib.antt =====
-- The distributed product cache: an in-memory cache with eviction policies, spread over cache nodes
-- by a consistent hashing ring, with a coordinator that a Raft election chooses.
--
-- Parts and files:
--   * Policy: the interface of an eviction policy (internal/shared/eviction.go) and its laws.
--   * Cache: the cache (internal/cache/entry.go, cache.go). `get`, `set`, `remove`, `len` and
--     `live_len` are Get, Set, Delete, Len and LiveLen; `set` is cut into `make_room`,
--     `update_entry`, `insert_entry` and `store`. Cache/Valid has the invariant, Cache/Reads the
--     comparison with an ideal store. Cache/Concurrent: the same methods cut at their locks, on the
--     objects that the map points to, with calls that take turns; Deref and View relate the objects
--     to the sequential cache, Effect and Safety the steps to one another, Replies the answers to
--     what the map held, and Alone one call to the sequential method.
--   * Eviction/Lru: internal/eviction/lru.go on a heap of nodes under addresses, with the shape of
--     the list in Links and Shape, and the order of use in Recency. Eviction/Random: random.go.
--   * Eviction/Heap: the heap.Interface methods of lfu.go and ttl.go under the operations of
--     container/heap; Order, Swaps and Sift have the order of the heap and what keeps it.
--     Eviction/Indexed: the heap with its map from keys; Shape, Pushes, Removes and Tracking have
--     its invariant, Known what it knows of each key. Eviction/Lfu and Eviction/Ttl: LFU and
--     TTLOnly, each with a History of calls.
--   * Cluster: internal/cluster. Hash and Ring are ring.go, Node is node.go, Coordinator is
--     coordinator.go, CacheServer is cacheserver.go and util.go.
--   * Raft: internal/raft. Raft is state.go and rpc.go, Raft/Election is timer.go, Raft/System a
--     cluster of nodes that exchange messages in any order. Raft/Votes has what the votes rest on,
--     Moves, Ballots and Counting the steps of a node, Invariant and Safety the cluster, Leadership
--     one election. Raft/InMemory: the transport and the cluster of scripts/raft_election.go, with
--     the requests and heartbeats in Voting and an undisturbed election in Quiet.
--   * Proxy: internal/proxy. Proxy is the handler of proxy.go, Proxy/CacheControl its header parser,
--     Proxy/Store is store.go.
--   * Api: internal/api/middleware.go and model.go, over the cache interface of
--     internal/shared/cache.go and the strategies of internal/invalidation in Api/Invalidation.
--     Api/Handlers: internal/api/handler.go, with its pages in Paging and its reads in Reading.
--     Api/Debug: internal/api/debug.go, with what the page on the cluster lists in Pages.
--   * Database: internal/db/postgres.go over any server, which fills the interface that Api takes;
--     Database/Update reads the statement of an update back.
--   * Llm: internal/llm/prefix_cache.go, with its eviction in Llm/Capacity. Llm/Models: models.go
--     with the hash and the statistics; Llm/Rag and Llm/Simulator: rag.go and simulator.go, with
--     their counters in Misses and Retrieval; Llm/Comparison: the models themselves.
--   * Benchmark: the loops of internal/benchmark/eviction.go and invalidation.go, with their counters
--     in Counters. Benchmark/Statistics: the hit rate, the mean and the percentile of eviction.go, with
--     its sort in Ascending.
--   * Config: internal/shared/config.go, and what cmd builds from the settings. CacheNode:
--     cmd/cachenode/main.go, with the text of the peers in Peers, its routing in Serving, and its
--     pages for health and metrics in Pages, where the debug page of the API reads them.
--     ApiProcess: the ring of cmd/api/main.go; ApiProcess/Status has the debug page over it.
--   * Tests: runs on concrete inputs.
-- How they interact: the cache calls its policy, which it takes as a record of operations, and the
-- theorems on the cache are about any policy that obeys the laws of Policy; the service of a node
-- calls the cache; the coordinator asks the ring for the owner of a key and the health of the owner;
-- the API reads and writes products through the cache, and the proxy stands before the API.
--
-- Conventions: a string is the list of its bytes. A time is a number of nanoseconds, 0 for the zero
-- time; a method takes the readings of the clock that it makes. An int64 is held in excess-2^63
-- form, with its wrap-around. A map is an association list, and what ranges over it does so in the
-- order of the list, where Go takes any order. A method under a lock is one step, so that nothing
-- is said of locks that block or are not released. In Cache/Concurrent, a reading of the clock or
-- of a field that Get makes outside its locks is a step too; a field is read whole, though Go does
-- not promise this of an unlocked reading. In Cache, the clock stands still from the reading of Set
-- to that of its policy under the lock; Cache/Concurrent keeps the two apart. The handlers of Proxy
-- and Api serve one request after the other: requests that run at once, and could meet between two
-- calls of the store or the cache, are not modelled. The texts of a product are valid UTF-8, as
-- those of the database are, which the JSON package otherwise replaces.
--
-- Fuel: `search_loop`, the loop of sort.Search, gets one round more than the interval is long, and
-- `digits` one round more than the number; each round makes the interval or the number smaller. The
-- loops of a heap get one round more than the position (`up`) or than the size (`down`), and each
-- round halves the former or moves down towards the latter.
--
-- Parameters: the eviction policy of the cache, the random source of the random policy, the JSON
-- codec and decoders of the API, the database server, the floating point and SHA-256 of the prefix
-- cache, the random draws of the simulations and benchmarks, the upstream of the proxy, the HTTP
-- client of the debug pages, and whether a write of a state file succeeds. In the cluster of
-- Raft/System every write succeeds.
--
-- Not modelled: the routes of the API, the pool and the migration of the database, the metrics, the
-- printing of the LLM demonstration, the dashboard, the clock and the reports of the benchmarks, the
-- simulation script, what the election script measures, the gRPC transport, and of the processes
-- under cmd all but what Config,
-- CacheNode and ApiProcess have. Most of this is input and output.
pub mod Prelude
pub mod Policy
pub mod Cache
pub mod Eviction
pub mod Cluster
pub mod Raft
pub mod Proxy
pub mod Llm
pub mod Api
pub mod Database
pub mod Benchmark
pub mod Config
pub mod CacheNode
pub mod ApiProcess
pub mod Tests
