-- ===== src/Eviction.antt =====
-- internal/eviction: the eviction policies, and their laws.
pub mod Lru
pub mod Random
pub mod Heap
pub mod Indexed
pub mod Ttl
pub mod Lfu
