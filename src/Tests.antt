-- ===== src/Tests.antt =====
-- Runs of the program on concrete inputs.
mod Cache
mod Concurrent
mod Debug
mod Eviction
mod Cluster
mod Routing
mod Raft
mod Election
mod Proxy
mod Api
mod Llm
mod Heaps
mod Config
mod Http
mod Benchmark
