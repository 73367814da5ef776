-- ===== src/Benchmark.antt =====
-- internal/benchmark: the workload of eviction.go against one policy, and that of invalidation.go
-- against one strategy. What the generator draws for an operation is an argument, and the latencies
-- are left out.
pub mod Counters
pub mod Statistics
use distributed_caching.Prelude.{
  ℕ, ◌+◌, Bool, true, false, ◌&&◌, Option, none, some, List, [], ◌∷◌, ◌++◌, if◌then◌else◌, leb, Str,
  codes, Time, Int64, int64, inc64, seconds,
}
use distributed_caching.Policy.{EvictionPolicy}
use distributed_caching.Cache.{InMemoryCache, get, set, len}
use distributed_caching.Cluster.Hash.{digits}
use distributed_caching.Api.Invalidation.{Strategy, Pending, in_memory, on_write}

pub record BenchOp : Type 0 where
  pub key : Str
  pub is_read : Bool

-- One step of `generateWorkload`, given the draws.
unfoldable pub bench_op : ℕ → Bool → BenchOp
bench_op key_idx is_read = record {
  key = codes "key:" ++ digits (key_idx + 1) key_idx;
  is_read = is_read;
}

-- An operation with the readings of the clock that it makes.
pub record Timed : Type 0 where
  pub op : BenchOp
  pub checked : Time
  pub read_at : Time
  pub set_at : Time

abbrev pub bench_value : Str
bench_value = codes "value"

module _ (p : EvictionPolicy) where
  -- The variables of the loop of `runSingleEvictionBenchmark`.
  pub record Tally : Type 0 where
    pub cache : InMemoryCache p
    pub hits : Int64
    pub misses : Int64
    pub evictions : Int64

  -- The variables of the loop of `runSingleInvalidationBenchmark`.
  pub record Reads : Type 0 where
    pub pending : Pending (in_memory p)
    pub hits : Int64
    pub total : Int64

module _ {p : EvictionPolicy} where
  abbrev pub put_value : Timed → InMemoryCache p → InMemoryCache p
  put_value t c = (set c t.op.key bench_value (seconds 60) t.set_at).0

  -- A read, which populates the cache on a miss.
  abbrev pub count_read : Timed → Tally p → InMemoryCache p → Option Str → Tally p
  count_read t s c (some v) = record s { cache = c; hits = inc64 s.hits }
  count_read t s c none = record s { cache = put_value t c; misses = inc64 s.misses }

  unfoldable pub read_op : Timed → Tally p → Tally p
  read_op t s = let (c, r) = get s.cache t.op.key t.checked t.read_at in count_read t s c r

  -- A write, which counts an eviction where the length shows one.
  unfoldable pub write_op : ℕ → Timed → Tally p → Tally p
  write_op capacity t s =
      let c = put_value t s.cache in
      record s {
        cache = c;
        evictions =
            if leb (len c) (len s.cache) && leb capacity (len s.cache)
            then inc64 s.evictions
            else s.evictions;
      }

  -- The loop of `runSingleEvictionBenchmark`.
  unfoldable pub run_ops : ℕ → List Timed → Tally p → Tally p
  run_ops capacity [] s = s
  run_ops capacity (t ∷ ts) s =
      run_ops capacity ts (if t.op.is_read then read_op t s else write_op capacity t s)

  abbrev pub count_strategy_read : Timed → Reads p → InMemoryCache p → Option Str → Reads p
  count_strategy_read t s c (some v) = record s {
    pending = record s.pending { state = c };
    hits = inc64 s.hits;
    total = inc64 s.total;
  }
  count_strategy_read t s c none = record s {
    pending = record s.pending { state = put_value t c };
    total = inc64 s.total;
  }

  unfoldable pub strategy_read : Timed → Reads p → Reads p
  strategy_read t s =
      let (c, r) = get s.pending.state t.op.key t.checked t.read_at in count_strategy_read t s c r

  unfoldable pub strategy_write : Strategy → Timed → Reads p → Reads p
  strategy_write strategy t s = record s {
    pending =
        on_write (in_memory p) strategy t.op.key (codes "{\"updated\":true}") t.set_at s.pending;
  }

  unfoldable pub run_strategy_ops : Strategy → List Timed → Reads p → Reads p
  run_strategy_ops strategy [] s = s
  run_strategy_ops strategy (t ∷ ts) s =
      run_strategy_ops strategy ts
        (if t.op.is_read then strategy_read t s else strategy_write strategy t s)
