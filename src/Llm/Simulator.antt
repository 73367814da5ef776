-- ===== src/Llm/Simulator.antt =====
-- internal/llm/simulator.go: the simulation of a scenario. What the random generator decides for a
-- request is an argument: that it uses the shared prefix, or else its own prefix.
use distributed_caching.Prelude.{
  ℕ, zero, suc, ◌+◌, Option, none, some, List, [], ◌∷◌, map, Str, codes, if◌then◌else◌, Time,
}
use distributed_caching.Config.{nat_of}
use distributed_caching.Llm.{Figures, PrefixCache, new_prefix_cache, store_prefix}
use distributed_caching.Llm.Models.{
  FloatOps, ModelConfig, cost_usd, hash_prefix, new_entry_for_prefix, CacheStats, stats, Round,
  serve_all,
}

pub record Scenario : Type 0 where
  pub name : Str
  pub system_prompt_len : ℕ
  pub num_requests : ℕ
  pub model : ModelConfig

-- The tokens of the shared prefix from number i on.
unfoldable pub shared_tokens : ℕ → ℕ → List ℕ
shared_tokens zero i = []
shared_tokens (suc n) i = (i + 1000) ∷ shared_tokens n (i + 1)

abbrev pub shared_prefix : Scenario → List ℕ
shared_prefix s = shared_tokens s.system_prompt_len 0

pub record ScenarioRequest : Type 0 where
  pub unique_prefix : Option (List ℕ)
  pub looked_up : Time
  pub cached_at : Time
  pub accessed_at : Time

abbrev pub prefix_or : List ℕ → Option (List ℕ) → List ℕ
prefix_or shared none = shared
prefix_or shared (some tokens) = tokens

abbrev pub request_prefix : Scenario → ScenarioRequest → List ℕ
request_prefix s r = prefix_or (shared_prefix s) r.unique_prefix

pub record ScenarioResult (f : Figures) : Type 0 where
  pub stats : CacheStats f
  pub without_cache_cost : f.Float
  pub with_cache_cost : f.Float
  pub savings_usd : f.Float
  pub savings_pct : f.Float

module _ {f : Figures} (ops : FloatOps f) (sha256 : Str → Str) (s : Scenario) where
  abbrev pub scenario_round : ScenarioRequest → Round f
  scenario_round r =
      let tokens = request_prefix s r in
      record {
        hash = hash_prefix sha256 tokens;
        entry = new_entry_for_prefix ops sha256 tokens s.model r.cached_at r.accessed_at;
        looked_up = r.looked_up;
      }

  -- The cache that is warmed up with the shared prefix, at the two times.
  unfoldable pub warm_cache : Time → Time → PrefixCache f
  warm_cache cached_at accessed_at =
      store_prefix (new_entry_for_prefix ops sha256 (shared_prefix s) s.model cached_at accessed_at)
        (new_prefix_cache 10_000)

  -- `RunScenario`, but for the time that it took
  unfoldable pub run_scenario : Time → Time → List ScenarioRequest → ScenarioResult f
  run_scenario cached_at accessed_at requests =
      let done =
        stats (serve_all (map scenario_round requests) (warm_cache cached_at accessed_at)) in
      let prefix_cost = cost_usd ops s.model s.system_prompt_len in
      let without_cache = ops.mul prefix_cost (ops.of_int s.num_requests) in
      let with_cache = ops.mul prefix_cost (ops.of_int (nat_of done.cache_misses)) in
      let savings = ops.sub without_cache with_cache in
      record {
        stats = done;
        without_cache_cost = without_cache;
        with_cache_cost = with_cache;
        savings_usd = savings;
        savings_pct =
            if ops.is_positive without_cache
            then ops.mul (ops.div savings without_cache) (ops.literal (codes "100"))
            else ops.literal (codes "0.0");
      }
