-- ===== src/Cluster.antt =====
-- internal/cluster: consistent hashing, routing and the cache server.
pub mod Hash
pub mod Ring
pub mod Node
pub mod Coordinator
pub mod CacheServer
