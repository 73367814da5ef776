-- ===== src/Tests/Llm.antt =====
-- internal/llm: a prefix cache of two entries, with numbers for the figures.
use distributed_caching.Prelude.{
  ℕ, ◌+◌, ◌≤◌, ◌≡◌, refl, true, false, Str, Str-discrete, str_key, codes, Time, int64, arith,
  length, ◌-◌, ◌*◌, ◌∙◌, ap, sym, ◌⊎◌, ◌≢◌, inl, inr, ltb, List, [], ◌∷◌, map, get_or,
}
use distributed_caching.Prelude.Sets.{elem}
use distributed_caching.Cluster.Hash.{digits}
use distributed_caching.Cluster.Ring.{sort, insert_sorted}
use distributed_caching.Llm.Models.{FloatOps, hash_prefix, json_ints, json_rest, hex}
use distributed_caching.Llm.Misses.{first_times}
use distributed_caching.Llm.Rag.{
  RagConfig, Request, rag_prefix, run_rag_simulation, index_tokens, repeat_token, query_block,
}
use distributed_caching.Llm.Retrieval.{Separates, document_sets, run_rag_simulation-misses}
use distributed_caching.Prelude.Dict.{lookup, insert, delete, has}
use distributed_caching.Llm.{
  Figures, PrefixCacheEntry, PrefixCache, new_prefix_cache, find_oldest, evict_oldest, store_prefix,
}
use distributed_caching.Llm.Capacity.{store_prefix-bounded}

abbrev figures : Figures
figures = record { Float = ℕ; zero_float = 0; add_float = ◌+◌ }

abbrev entry : Str → Time → PrefixCacheEntry figures
entry hash t = record {
  prefix_hash = hash;
  model = codes "m";
  token_count = 8;
  tflops_cost = 2;
  cost_usd = 1;
  hit_count = int64 0;
  cached_at = t;
  last_accessed_at = t;
}

abbrev full : PrefixCache figures
full =
    store_prefix (entry (codes "b") 20) (store_prefix (entry (codes "a") 10) (new_prefix_cache 2))

program : Unit {0}
unfolding Str-discrete lookup insert delete new_prefix_cache find_oldest evict_oldest store_prefix
program = tt

-- A third prefix pushes the oldest out.
oldest_gone :
    (has (codes "a") (store_prefix (entry (codes "c") 30) full).entries ≡ false)
    × (has (codes "b") (store_prefix (entry (codes "c") 30) full).entries ≡ true)
unfolding program
oldest_gone = (refl, refl)

-- To store a prefix again, in a full cache, pushes another one out all the same.
again : length (store_prefix (entry (codes "b") 30) full).entries ≡ 1
unfolding program
again = refl

store_prefix-bounded_example :
    length (store_prefix (entry (codes "c") 30) full).entries
    ≤ (store_prefix (entry (codes "c") 30) full).max_size
unfolding program
store_prefix-bounded_example =
    store_prefix-bounded (entry (codes "c") 30) full (omega arith) (refl, (refl, tt)) (omega arith)

-- Numbers for the floats: a constant is 1, and the subtraction stops at 0.
abbrev ops : FloatOps figures
ops = record {
  literal = λ s. 1;
  of_int = λ n. n;
  sub = λ x y. x - y;
  mul = ◌*◌;
  div = λ x y. x;
  is_positive = λ x. ltb 0 x;
}

abbrev config : RagConfig
config = record {
  model = record {
    name = codes "m";
    num_layers = 1;
    num_kv_heads = 1;
    num_q_heads = 1;
    head_dim = 1;
    max_context_len = 10;
    params_billion = codes "1.0";
  };
  num_documents = 3;
  tokens_per_doc = 5;
  top_k = 2;
  query_tokens = 1;
  num_requests = 3;
  requests_per_day = 10;
}

abbrev asks : List ℕ → Request
asks draws = record { draws = draws; looked_up = 1; cached_at = 2; accessed_at = 3 }

-- The second request asks for the documents of the first in another order.
abbrev requests : List Request
requests = asks (0 ∷ 2 ∷ []) ∷ asks (2 ∷ 0 ∷ []) ∷ asks (1 ∷ 2 ∷ []) ∷ []

-- A hash that keeps apart what differs early: the text itself.
abbrev text_itself : Str → Str
text_itself s = s

-- The prefixes of the requests are two.
one_of_two :
    (a : Str)
    → elem a (map (rag_prefix config) requests) ≡ true
    → (a ≡ rag_prefix config (asks (0 ∷ 2 ∷ []))) ⊎ (a ≡ rag_prefix config (asks (1 ∷ 2 ∷ [])))
unfolding index_tokens repeat_token query_block sort insert_sorted
one_of_two a i = ground arith

hashes_differ :
    hash_prefix text_itself (rag_prefix config (asks (0 ∷ 2 ∷ [])))
    ≢ hash_prefix text_itself (rag_prefix config (asks (1 ∷ 2 ∷ [])))
unfolding hash_prefix json_ints json_rest hex digits index_tokens repeat_token query_block sort
    insert_sorted
hashes_differ e = absurd (omega (arith, ap (λ s. get_or s 13 0) e))

apart : Separates (hash_prefix text_itself) (map (rag_prefix config) requests)
apart a b i j e = elim (one_of_two a i) [
  | inl p ↦ elim (one_of_two b j) [
    | inl q ↦ p ∙ sym q
    | inr q ↦
        absurd (
          hashes_differ (ap (hash_prefix text_itself) (sym p) ∙ e ∙ ap (hash_prefix text_itself) q))
  ]
  | inr p ↦ elim (one_of_two b j) [
    | inl q ↦ absurd (
        hashes_differ
          (ap (hash_prefix text_itself) (sym q) ∙ sym e ∙ ap (hash_prefix text_itself) p))
    | inr q ↦ p ∙ sym q
  ]
]

run_rag_simulation-misses_example :
    (run_rag_simulation ops text_itself config requests).stats.cache_misses
    ≡ int64 (first_times [] (document_sets requests))
unfolding sort insert_sorted Str-discrete
run_rag_simulation-misses_example =
    run_rag_simulation-misses ops text_itself config requests (omega arith)
      (refl, (refl, (refl, tt))) apart (omega arith)

two_misses : first_times [] (document_sets requests) ≡ 2
unfolding sort insert_sorted Str-discrete
two_misses = refl
