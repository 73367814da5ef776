-- ===== src/Cluster/CacheServer.antt =====
-- internal/cluster/cacheserver.go and util.go: the cache of a node behind its service. The leader
-- test is a function that the process passes in; here it is the answer that the function gives.
use distributed_caching.Prelude.{
  ℕ, ◌+◌, ◌*◌, ◌-◌, ◌^◌, ◌≤◌, ◌≡◌, refl, Bool, true, false, Option, none, some, if◌then◌else◌, Str,
  Time, Duration, Int64, int64, inc64, scale64, second, arith, ltb,
}
use distributed_caching.Policy.{EvictionPolicy}
use distributed_caching.Cache.{
  InMemoryCache, SetError, get, set, remove, len, expiry, store, negative_ttl, ttl_too_long,
}

-- `time.Duration(seconds) * time.Second`
unfoldable pub seconds_to_duration : Int64 → Duration
seconds_to_duration s = scale64 s second

-- Where the product fits, it is the product: (x - 2^63) * 10^9 + 2^63 without a wrap.
seconds_to_duration-exact :
    (s : Int64)
    → int64 0 ≤ s + 9_223_372_036
    → s ≤ int64 9_223_372_036
    → seconds_to_duration s ≡ s * second + 2 ^ 63 - 2 ^ 63 * second
unfolding seconds_to_duration
seconds_to_duration-exact s low high = omega arith

accepted_expiry :
    (s now : ℕ)
    → int64 0 ≤ s
    → expiry now (s * second + 2 ^ 63 - 2 ^ 63 * second) ≡ now + (s - 2 ^ 63) * second
accepted_expiry s now h = ground arith

-- The atomic counters.
pub record CacheNodeMetrics : Type 0 where
  pub hits : Int64
  pub misses : Int64
  pub evictions : Int64

module _ (p : EvictionPolicy) where
  pub record CacheServer : Type 0 where
    pub node_id : Str
    pub cache : InMemoryCache p
    pub metrics : CacheNodeMetrics

abbrev pub count_hit : Bool → CacheNodeMetrics → CacheNodeMetrics
count_hit true m = record m { hits = inc64 m.hits }
count_hit false m = record m { misses = inc64 m.misses }

abbrev pub is_hit : Option Str → Bool
is_hit none = false
is_hit (some _) = true

module _ {p : EvictionPolicy} where
  unfoldable pub new_cache_server : Str → InMemoryCache p → CacheServer p
  new_cache_server node_id c = record {
    node_id = node_id;
    cache = c;
    metrics = record { hits = int64 0; misses = int64 0; evictions = int64 0 };
  }

  -- The cache never returns an error from `Get`, so that branch of the method does not occur.
  unfoldable pub server_get : CacheServer p → Str → Time → Time → CacheServer p × Option Str
  server_get s key checked now =
      let (c, value) = get s.cache key checked now in
      (record s { cache = c; metrics = count_hit (is_hit value) s.metrics }, value)

  unfoldable pub server_set :
      CacheServer p → Str → Str → Int64 → Time → CacheServer p × Option SetError
  server_set s key value ttl_seconds now =
      let (c, e) = set s.cache key value (seconds_to_duration ttl_seconds) now in
      (record s { cache = c }, e)

  unfoldable pub server_delete : CacheServer p → Str → CacheServer p
  server_delete s key = record s { cache = remove s.cache key }

  unfoldable pub health : CacheServer p → Bool → Bool × Bool
  health s is_leader = (true, is_leader)

  -- `int64(s.cache.Len())`, for a length below 2^63
  unfoldable pub stats : CacheServer p → Int64 × Int64 × Int64 × Int64 × Str
  stats s = (s.metrics.hits, s.metrics.misses, s.metrics.evictions, int64 (len s.cache), p.name)

  unfoldable pub record_eviction : CacheServer p → CacheServer p
  record_eviction s = record s {
    metrics = record s.metrics { evictions = inc64 s.metrics.evictions };
  }

  -- For a number of seconds whose nanoseconds an `int64` can hold, the service accepts exactly 0 to
  -- 86400 seconds and refuses the rest without a change; an accepted entry expires that many seconds
  -- later.
  pub server_set-seconds :
      (s : CacheServer p) (key value : Str) (ttl : Int64) (now : Time)
      → int64 0 ≤ ttl + 9_223_372_036
      → ttl ≤ int64 9_223_372_036
      → server_set s key value ttl now ≡ (
          if ltb ttl (int64 0)
          then (s, some negative_ttl)
          else if ltb (int64 86400) ttl
          then (s, some ttl_too_long)
          else (
            record s { cache = store s.cache key value (now + (ttl - 2 ^ 63) * second) now now },
            none,
          ))
  unfolding server_set set
  server_set-seconds s key value ttl now low high =
      rw (seconds_to_duration-exact ttl low high, server_set)
        (ground (arith, accepted_expiry ttl now))

  -- Every read of the service adds one to the hits or to the misses, as it hit or missed, and leaves
  -- the other counters alone.
  pub server_get-counts :
      (s : CacheServer p) (key : Str) (checked now : Time)
      → ((server_get s key checked now).1 ≡ (get s.cache key checked now).1)
        × ((server_get s key checked now).0.metrics
            ≡ count_hit (is_hit (get s.cache key checked now).1) s.metrics)
  unfolding server_get
  server_get-counts s key checked now = (refl, refl)

-- Beyond that range the product wraps around: 18446744074 seconds, more than 584 years, become a
-- TTL of less than a third of a second, which the cache accepts.
pub seconds_to_duration_wraps : seconds_to_duration (int64 18_446_744_074) ≡ int64 290_448_384
unfolding seconds_to_duration
seconds_to_duration_wraps = refl
