-- ===== src/Llm/Comparison.antt =====
-- internal/llm/models.go: the models, and the comparison of them that internal/llm/simulator.go runs.
use distributed_caching.Prelude.{List, [], ◌∷◌, map, codes, Str, Time, ℕ}
use distributed_caching.Llm.{Figures}
use distributed_caching.Llm.Models.{FloatOps, ModelConfig}
use distributed_caching.Llm.Simulator.{Scenario, ScenarioRequest, ScenarioResult, run_scenario}

abbrev pub llama3_8b : ModelConfig
llama3_8b = record {
  name = codes "Llama-3-8B";
  num_layers = 32;
  num_kv_heads = 8;
  num_q_heads = 32;
  head_dim = 128;
  max_context_len = 8192;
  params_billion = codes "8.0";
}

abbrev pub llama3_70b : ModelConfig
llama3_70b = record {
  name = codes "Llama-3-70B";
  num_layers = 80;
  num_kv_heads = 8;
  num_q_heads = 64;
  head_dim = 128;
  max_context_len = 8192;
  params_billion = codes "70.0";
}

abbrev pub mistral_7b : ModelConfig
mistral_7b = record {
  name = codes "Mistral-7B";
  num_layers = 32;
  num_kv_heads = 8;
  num_q_heads = 32;
  head_dim = 128;
  max_context_len = 32768;
  params_billion = codes "7.0";
}

abbrev pub mixtral_8x7b : ModelConfig
mixtral_8x7b = record {
  name = codes "Mixtral-8x7B";
  num_layers = 32;
  num_kv_heads = 8;
  num_q_heads = 32;
  head_dim = 128;
  max_context_len = 32768;
  params_billion = codes "46.7";
}

abbrev pub qwen2_5_72b : ModelConfig
qwen2_5_72b = record {
  name = codes "Qwen2.5-72B";
  num_layers = 80;
  num_kv_heads = 8;
  num_q_heads = 64;
  head_dim = 128;
  max_context_len = 131072;
  params_billion = codes "72.0";
}

abbrev pub deepseek_r1 : ModelConfig
deepseek_r1 = record {
  name = codes "DeepSeek-R1-671B";
  num_layers = 61;
  num_kv_heads = 128;
  num_q_heads = 128;
  head_dim = 128;
  max_context_len = 131072;
  params_billion = codes "671.0";
}

-- `AllModels`
abbrev pub all_models : List ModelConfig
all_models = llama3_8b ∷ llama3_70b ∷ mistral_7b ∷ mixtral_8x7b ∷ qwen2_5_72b ∷ deepseek_r1 ∷ []

-- `RunAllModelsComparison`: every scenario seeds the generator alike, so that the requests are the
-- same for all models.
unfoldable pub run_all_models_comparison :
    {f : Figures} (ops : FloatOps f) (sha256 : Str → Str) (prefix_len num_requests : ℕ)
    (cached_at accessed_at : Time)
    → List ScenarioRequest
    → List (ScenarioResult f)
run_all_models_comparison ops sha256 prefix_len num_requests cached_at accessed_at requests =
    map
      (λ m.
        let s : Scenario = record {
          name = m.name;
          system_prompt_len = prefix_len;
          num_requests = num_requests;
          model = m;
        } in
        run_scenario ops sha256 s cached_at accessed_at requests)
      all_models
