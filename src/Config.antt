-- ===== src/Config.antt =====
-- internal/shared/config.go: the settings of a service, from its environment, and what
-- cmd/cachenode/main.go and cmd/api/main.go build from them.
pub mod Limits
use distributed_caching.Prelude.{
  ℕ, ◌+◌, ◌-◌, ◌^◌, Bool, true, false, Option, none, some, List, [], ◌∷◌, if◌then◌else◌, ltb, Str,
  str_key, codes, same, Int64, int64,
}
use distributed_caching.Policy.{EvictionPolicy}
use distributed_caching.Cache.{InMemoryCache}
use distributed_caching.Cache
use distributed_caching.Eviction.Lru.{lru_policy, new_lru}
use distributed_caching.Eviction.Lfu.{lfu_policy, new_lfu}
use distributed_caching.Eviction.Ttl.{ttl_policy, new_ttl_only}
use distributed_caching.Eviction.Random.{Rand, random_policy, new_random}
use distributed_caching.Api.Invalidation.{Strategy, ttl, write_through, write_behind}
use distributed_caching.Proxy.CacheControl.{atoi}

pub record Config : Type 0 where
  pub eviction_policy : Str
  pub cache_capacity : Int64
  pub invalidation_strategy : Str
  pub cache_cluster_addr : Str
  pub db_dsn : Str
  pub port : Int64
  pub node_id : Str
  pub peers : Str

-- `os.Getenv`: the empty string for a variable that is not set
abbrev pub Environment : Type 0
Environment = Str → Str

unfoldable pub get_env : Environment → Str → Str → Str
get_env env key default_val = if same (env key) [] then default_val else env key

abbrev pub parsed_or : Int64 → Option Int64 → Int64
parsed_or default_val none = default_val
parsed_or default_val (some n) = n

unfoldable pub get_env_int : Environment → Str → Int64 → Int64
get_env_int env key default_val =
    if same (env key) [] then default_val else parsed_or default_val (atoi (env key))

-- `validPolicies[name]`
abbrev pub is_policy : Str → Bool
is_policy name =
    if same name (codes "lru")
    then true
    else if same name (codes "lfu")
    then true
    else if same name (codes "ttl")
    then true
    else same name (codes "random")

-- `validStrategies[name]`
abbrev pub is_strategy : Str → Bool
is_strategy name =
    if same name (codes "ttl")
    then true
    else if same name (codes "write-through")
    then true
    else same name (codes "write-behind")

abbrev pub max_capacity : Int64
max_capacity = int64 1_000_000

abbrev pub capacity_in_range : Int64 → Bool
capacity_in_range n = if ltb n (int64 1) then false else if ltb max_capacity n then false else true

pub data Loaded : Type 0 where
  loaded : Config → Loaded
  invalid_eviction_policy invalid_invalidation_strategy : Str → Loaded
  invalid_cache_capacity : Int64 → Loaded

-- The settings of `Load` before they are validated.
unfoldable pub read_config : Environment → Config
read_config env = record {
  eviction_policy = get_env env (codes "EVICTION_POLICY") (codes "lru");
  cache_capacity = get_env_int env (codes "CACHE_CAPACITY") (int64 10_000);
  invalidation_strategy = get_env env (codes "INVALIDATION_STRATEGY") (codes "write-through");
  cache_cluster_addr = get_env env (codes "CACHE_CLUSTER_ADDR") [];
  db_dsn = get_env env (codes "DB_DSN") [];
  port = get_env_int env (codes "PORT") (int64 8080);
  node_id = get_env env (codes "NODE_ID") [];
  peers = get_env env (codes "PEERS") [];
}

-- The checks of `Load`.
unfoldable pub validate : Config → Loaded
validate cfg =
    if is_policy cfg.eviction_policy
    then (if is_strategy cfg.invalidation_strategy
        then (if capacity_in_range cfg.cache_capacity
            then loaded cfg
            else invalid_cache_capacity cfg.cache_capacity)
        else invalid_invalidation_strategy cfg.invalidation_strategy)
    else invalid_eviction_policy cfg.eviction_policy

abbrev pub load : Environment → Loaded
load env = validate (read_config env)

-- A policy with the state of a new one.
pub record BuiltPolicy : Type 1 where
  pub policy : EvictionPolicy
  pub state : policy.State

unfoldable pub built_lru : BuiltPolicy
unfolding lru_policy
built_lru = record { policy = lru_policy; state = new_lru }

unfoldable pub built_lfu : BuiltPolicy
unfolding lfu_policy
built_lfu = record { policy = lfu_policy; state = new_lfu }

unfoldable pub built_ttl : BuiltPolicy
unfolding ttl_policy
built_ttl = record { policy = ttl_policy; state = new_ttl_only }

unfoldable pub built_random : (r : Rand) → r.State → BuiltPolicy
unfolding random_policy
built_random r seed = record { policy = random_policy r; state = new_random seed }

-- `buildEvictionPolicy`, given a seeded random source
unfoldable pub build_eviction_policy : (r : Rand) → r.State → Str → BuiltPolicy
build_eviction_policy r seed name =
    if same name (codes "lfu")
    then built_lfu
    else if same name (codes "ttl")
    then built_ttl
    else if same name (codes "random")
    then built_random r seed
    else built_lru

-- `buildInvalidationStrategy`
unfoldable pub build_invalidation_strategy : Str → Strategy
build_invalidation_strategy name =
    if same name (codes "write-through")
    then write_through
    else if same name (codes "write-behind")
    then write_behind
    else ttl

-- The int n, for n that is not negative.
abbrev pub nat_of : Int64 → ℕ
nat_of n = n - 2 ^ 63

-- The cache of a cache node.
unfoldable pub build_cache :
    (r : Rand) (seed : r.State) (cfg : Config)
    → InMemoryCache (build_eviction_policy r seed cfg.eviction_policy).policy
build_cache r seed cfg =
    Cache.new (nat_of cfg.cache_capacity) (build_eviction_policy r seed cfg.eviction_policy).state
