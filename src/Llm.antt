-- ===== src/Llm.antt =====
-- internal/llm/prefix_cache.go: the cache of token prefixes. The figures of compute and cost are
-- floating point: their type and its addition are parameters. The iteration of Go over a map, in no
-- fixed order, is that of the association list.
pub mod Capacity
pub mod Models
pub mod Rag
pub mod Simulator
pub mod Misses
pub mod Retrieval
pub mod Comparison
use distributed_caching.Prelude.{
  ℕ, ◌+◌, ◌≤◌, ◌≡◌, Bool, true, false, Option, none, some, List, [], ◌∷◌, if◌then◌else◌, ltb, leb,
  Str, str_key, same, Time, Int64, int64, inc64, length,
}
use distributed_caching.Prelude.Dict.{Dict, lookup, insert, delete}

pub record Figures : Type 1 where
  pub Float : Type 0
  pub zero_float : Float
  pub add_float : Float → Float → Float

module _ (f : Figures) where
  pub record PrefixCacheEntry : Type 0 where
    pub prefix_hash : Str
    pub model : Str
    pub token_count : ℕ
    pub tflops_cost : f.Float
    pub cost_usd : f.Float
    pub hit_count : Int64
    pub cached_at : Time
    pub last_accessed_at : Time

  pub record PrefixCache : Type 0 where
    pub entries : Dict Str (PrefixCacheEntry)
    pub max_size : ℕ
    pub total_requests : Int64
    pub cache_hits : Int64
    pub total_saved_tflops : f.Float
    pub total_saved_usd : f.Float

module _ {f : Figures} where
  unfoldable pub new_prefix_cache : ℕ → PrefixCache f
  new_prefix_cache max_size = record {
    entries = [];
    max_size = max_size;
    total_requests = int64 0;
    cache_hits = int64 0;
    total_saved_tflops = f.zero_float;
    total_saved_usd = f.zero_float;
  }

  -- The part of `Lookup` on a hit.
  unfoldable pub count_use : Str → Time → PrefixCacheEntry f → PrefixCache f → PrefixCache f
  count_use prefix_hash now entry c = record c {
    entries =
        insert prefix_hash
          (record entry { hit_count = inc64 entry.hit_count; last_accessed_at = now }) c.entries;
    cache_hits = inc64 c.cache_hits;
    total_saved_tflops = f.add_float c.total_saved_tflops entry.tflops_cost;
    total_saved_usd = f.add_float c.total_saved_usd entry.cost_usd;
  }

  unfoldable pub lookup_prefix :
      Str → Time → PrefixCache f → PrefixCache f × Option (PrefixCacheEntry f)
  lookup_prefix prefix_hash now c0 =
      let c = record c0 { total_requests = inc64 c0.total_requests } in
      elim (lookup prefix_hash c.entries) [
        | none ↦ (c, none)
        | some entry ↦ (
          count_use prefix_hash now entry c,
          some (record entry { hit_count = inc64 entry.hit_count; last_accessed_at = now }),
        )
      ]

  -- The loop of `Store` over the entries: the oldest key so far and its time.
  unfoldable pub find_oldest : Dict Str (PrefixCacheEntry f) → Str → Time → Str
  find_oldest [] oldest_key oldest_time = oldest_key
  find_oldest ((k, e) ∷ m) oldest_key oldest_time =
      let taken = find_oldest m k e.last_accessed_at in
      let left = find_oldest m oldest_key oldest_time in
      if same oldest_key []
      then taken
      else if ltb e.last_accessed_at oldest_time
      then taken
      else left

  unfoldable pub evict_oldest : PrefixCache f → PrefixCache f
  evict_oldest c =
      if leb c.max_size (length c.entries)
      then record c { entries = delete (find_oldest c.entries [] 0) c.entries }
      else c

  unfoldable pub store_prefix : PrefixCacheEntry f → PrefixCache f → PrefixCache f
  store_prefix entry c =
      let room = evict_oldest c in
      record room { entries = insert entry.prefix_hash entry room.entries }
