-- ===== src/Config/Limits.antt =====
-- internal/shared/config.go: the cache of a node under the settings that are accepted.
use distributed_caching.Prelude.{
  ℕ, ◌<◌, ◌≤◌, ◌≡◌, inl, inr, true, List, Str, str_key, codes, same, arith, Bool-cases,
}
use distributed_caching.Policy.{Laws}
use distributed_caching.Cache.{new, len}
use distributed_caching.Cache.Valid.{IsValid}
use distributed_caching.Cache.Reads.{Call, run, run-IsValid, run-capacity}
use distributed_caching.Eviction.Lru.{lru_policy}
use distributed_caching.Eviction.Lru.Shape.{lru_laws, lru_cache, lru_cache-IsValid}
use distributed_caching.Eviction.Lfu.{lfu_policy}
use distributed_caching.Eviction.Lfu.History.{lfu_laws, lfu_cache, lfu_cache-IsValid}
use distributed_caching.Eviction.Ttl.{ttl_policy}
use distributed_caching.Eviction.Ttl.History.{ttl_laws, ttl_cache, ttl_cache-IsValid}
use distributed_caching.Eviction.Random.{Rand, random_policy}
use distributed_caching.Eviction.Random.Laws.{random_laws, random_cache, random_cache-IsValid}
use distributed_caching.Config.{
  Config, Environment, loaded, load, validate, is_policy, BuiltPolicy, built_lru, built_lfu,
  built_ttl, built_random, build_eviction_policy, build_cache, nat_of,
}

-- The policy obeys the laws, and a cache of a positive capacity over it is valid.
abbrev IsFresh : BuiltPolicy → Type 1
IsFresh b =
    (laws : Laws b.policy) × ((capacity : ℕ) → 0 < capacity → IsValid laws (new capacity b.state))

built_lru-IsFresh : IsFresh built_lru
unfolding built_lru lru_policy lru_cache
built_lru-IsFresh = (lru_laws, lru_cache-IsValid)

built_lfu-IsFresh : IsFresh built_lfu
unfolding built_lfu lfu_policy lfu_cache
built_lfu-IsFresh = (lfu_laws, lfu_cache-IsValid)

built_ttl-IsFresh : IsFresh built_ttl
unfolding built_ttl ttl_policy ttl_cache
built_ttl-IsFresh = (ttl_laws, ttl_cache-IsValid)

module _ (r : Rand) (seed : r.State) where
  built_random-IsFresh : IsFresh (built_random r seed)
  unfolding built_random random_policy random_cache
  built_random-IsFresh = (random_laws r, random_cache-IsValid r seed)

  -- Whatever the name, the policy obeys the laws and is new.
  build_eviction_policy-IsFresh : (name : Str) → IsFresh (build_eviction_policy r seed name)
  unfolding build_eviction_policy
  build_eviction_policy-IsFresh name = elim (Bool-cases (same name (codes "lfu"))) [
    | inl e ↦ rw e built_lfu-IsFresh
    | inr e1 ↦ elim (Bool-cases (same name (codes "ttl"))) [
      | inl e ↦ rw (e1, e) built_ttl-IsFresh
      | inr e2 ↦ elim (Bool-cases (same name (codes "random"))) [
        | inl e ↦ rw (e1, e2, e) built_random-IsFresh
        | inr e ↦ rw (e1, e2, e) built_lru-IsFresh
      ]
    ]
  ]

  -- The name that the policy reports is the setting that it was built from.
  name-build_eviction_policy :
      (name : Str) → is_policy name ≡ true → (build_eviction_policy r seed name).policy.name ≡ name
  unfolding build_eviction_policy built_lru built_lfu built_ttl built_random lru_policy lfu_policy
      ttl_policy random_policy
  name-build_eviction_policy name h = ground arith

  loaded-limits :
      (env : Environment) {cfg : Config}
      → load env ≡ loaded cfg
      → (is_policy cfg.eviction_policy ≡ true)
        × (0 < nat_of cfg.cache_capacity)
        × (nat_of cfg.cache_capacity ≤ 1_000_000)
  unfolding validate
  loaded-limits env h = ground arith

  -- If `Load` accepts the environment, then the policy of the cache node's cache reports the name
  -- that was set, and whatever calls the cache has served since it was built, it holds at most as
  -- many entries as the capacity that was set, which is at most 1,000,000.
  pub load-run :
      (env : Environment) {cfg : Config} (calls : List Call)
      → load env ≡ loaded cfg
      → ((build_eviction_policy r seed cfg.eviction_policy).policy.name ≡ cfg.eviction_policy)
        × (len (run (build_cache r seed cfg) calls) ≤ nat_of cfg.cache_capacity)
        × (nat_of cfg.cache_capacity ≤ 1_000_000)
  unfolding len build_cache new
  load-run env {cfg} calls h =
      let (named, positive, limit) = loaded-limits env h in
      let fresh = build_eviction_policy-IsFresh cfg.eviction_policy in
      (
        name-build_eviction_policy cfg.eviction_policy named,
        omega (
          arith,
          run-capacity (build_cache r seed cfg) calls,
          (run-IsValid fresh.0 (build_cache r seed cfg) calls (fresh.1 _ positive)).bounded,
        ),
        limit,
      )
