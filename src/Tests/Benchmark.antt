-- ===== src/Tests/Benchmark.antt =====
-- internal/benchmark/eviction.go: a few operations on an LRU cache of one entry.
use distributed_caching.Prelude.{
  ℕ, ◌+◌, ◌-◌, ◌*◌, ◌/◌, ◌^◌, ◌≡◌, ◌≤◌, refl, true, false, List, [], ◌∷◌, int64, arith, length,
  Str-discrete, ltb,
}
use distributed_caching.Prelude.Dict.{lookup, insert, delete}
use distributed_caching.Cache
use distributed_caching.Cache.Valid.{IsValid}
use distributed_caching.Cluster.Hash.{digits}
use distributed_caching.Eviction.Lru
use distributed_caching.Eviction.Lru.{lru_policy}
use distributed_caching.Eviction.Lru.Shape.{lru_laws, lru_cache, lru_cache-IsValid}
use distributed_caching.Benchmark.Statistics.{LatencyOps, percentile, sink, sink_all, swap_next}
use distributed_caching.Benchmark.{Timed, Tally, bench_op, read_op, write_op, run_ops}
use distributed_caching.Benchmark.Counters.{reads, run_ops-counts}

abbrev reading : ℕ → Timed
reading k = record { op = bench_op k true; checked = 1; read_at = 2; set_at = 3 }

abbrev writing : ℕ → Timed
writing k = record { op = bench_op k false; checked = 1; read_at = 2; set_at = 3 }

-- A read of 1 misses and populates the cache; one of 2 misses and pushes 1 out; 2 is written again.
abbrev ops : List Timed
ops = reading 1 ∷ reading 2 ∷ writing 2 ∷ reading 2 ∷ []

abbrev start : Tally lru_policy
start = record { cache = lru_cache 1; hits = int64 0; misses = int64 0; evictions = int64 0 }

run_ops-counts_example :
    (h : ℕ) × (m : ℕ) × (e : ℕ) × ((run_ops 1 ops start).hits ≡ int64 h)
    × ((run_ops 1 ops start).misses ≡ int64 m)
    × ((run_ops 1 ops start).evictions ≡ int64 e)
    × (h + m ≡ reads ops)
    × (e + reads ops ≤ length ops)
    × IsValid lru_laws (run_ops 1 ops start).cache
unfolding bench_op
run_ops-counts_example =
    run_ops-counts lru_laws 1 ops (lru_cache 1) (omega arith) (lru_cache-IsValid 1 (omega arith))

-- The one eviction is not counted, and the write that overwrites its key is.
evictions_miscounted :
    ((run_ops 1 (reading 1 ∷ reading 2 ∷ []) start).evictions ≡ int64 0)
    × ((run_ops 1 (writing 2 ∷ writing 2 ∷ []) start).evictions ≡ int64 1)
unfolding run_ops read_op write_op bench_op digits lru_cache lru_policy Lru.new_lru
    Lru.insert_at_front Lru.remove_node Lru.move_to_front Lru.on_access Lru.on_insert Lru.on_evict
    Lru.evict Cache.is_expired Cache.expire Cache.touch Cache.get Cache.drop_victim Cache.make_room
    Cache.update_entry Cache.insert_entry Cache.store Cache.set Cache.new Cache.len lookup insert
    delete Str-discrete
evictions_miscounted = (refl, refl)

-- Latencies as natural numbers.
abbrev naturals : LatencyOps
naturals = record {
  Float = ℕ;
  zero_float = 0;
  less = ltb;
  plus = λ x y. x + y;
  over = λ x y. x / y;
  times = λ x y. x * y;
  of_int = λ x. x - 2 ^ 63;
}

abbrev latencies : List ℕ
latencies = 1 ∷ 2 ∷ 9 ∷ []

median : percentile naturals (λ n. int64 2) (5 ∷ latencies) ≡ 2
unfolding percentile sink_all sink swap_next
median = refl
