-- ===== src/Llm/Rag.antt =====
-- internal/llm/rag.go: the simulation of retrieval. The draws of the Zipf generator are an argument,
-- one list of document indices for each request; an index is not negative.
use distributed_caching.Prelude.{
  ℕ, zero, suc, ◌+◌, ◌*◌, List, [], ◌∷◌, ◌++◌, map, Str, codes, if◌then◌else◌, ltb, length, get_or,
  Time,
}
use distributed_caching.Cluster.Hash.{digits}
use distributed_caching.Cluster.Ring.{sort}
use distributed_caching.Config.{nat_of}
use distributed_caching.Llm.{Figures, PrefixCache, new_prefix_cache}
use distributed_caching.Llm.Models.{
  FloatOps, ModelConfig, cost_usd, hash_prefix, new_entry_for_token_count, CacheStats, stats, Round,
  serve_all,
}

pub record Document : Type 0 where
  pub id : Str
  pub token_count : ℕ

-- `%03d`
abbrev pub pad3 : Str → Str
pad3 (a ∷ []) = b'0' ∷ b'0' ∷ a ∷ []
pad3 (a ∷ b ∷ []) = b'0' ∷ a ∷ b ∷ []
pad3 other = other

-- The documents from number i on.
unfoldable pub documents_from : ℕ → ℕ → ℕ → List Document
documents_from zero i tokens_per_doc = []
documents_from (suc n) i tokens_per_doc =
    record { id = codes "doc-" ++ pad3 (digits (i + 2) (i + 1)); token_count = tokens_per_doc }
    ∷ documents_from n (i + 1) tokens_per_doc

-- `NewDocumentStore`
unfoldable pub new_document_store : ℕ → ℕ → List Document
new_document_store num_docs tokens_per_doc = documents_from num_docs 0 tokens_per_doc

abbrev no_document : Document
no_document = record { id = []; token_count = 0 }

unfoldable pub retrieve : List Document → List ℕ → List Document
retrieve docs [] = []
retrieve docs (i ∷ is) =
    let rest = retrieve docs is in
    if ltb i (length docs) then get_or docs i no_document ∷ rest else rest

pub record RagConfig : Type 0 where
  pub model : ModelConfig
  pub num_documents : ℕ
  pub tokens_per_doc : ℕ
  pub top_k : ℕ
  pub query_tokens : ℕ
  pub num_requests : ℕ
  pub requests_per_day : ℕ

unfoldable pub repeat_token : ℕ → ℕ → List ℕ → List ℕ
repeat_token zero token rest = rest
repeat_token (suc n) token rest = token ∷ repeat_token n token rest

unfoldable pub query_block : ℕ → ℕ → List ℕ
query_block zero j = []
query_block (suc n) j = (900_000 + j) ∷ query_block n (j + 1)

-- The two loops of `buildPrefixTokens`.
unfoldable pub index_tokens : ℕ → List ℕ → List ℕ
index_tokens query_tokens [] = query_block query_tokens 0
index_tokens query_tokens (i ∷ is) = repeat_token 8 (500_000 + i) (index_tokens query_tokens is)

-- `buildPrefixTokens`, which reads of the documents only how many there are, to size its buffer
abbrev pub build_prefix_tokens : List Document → ℕ → List ℕ → List ℕ
build_prefix_tokens docs query_tokens doc_indices = index_tokens query_tokens doc_indices

-- The draws of a request, and the readings of the clock that it makes.
pub record Request : Type 0 where
  pub draws : List ℕ
  pub looked_up : Time
  pub cached_at : Time
  pub accessed_at : Time

abbrev pub rag_prefix : RagConfig → Request → List ℕ
rag_prefix cfg r =
    let doc_indices = sort r.draws in
    let store = new_document_store cfg.num_documents cfg.tokens_per_doc in
    build_prefix_tokens (retrieve store doc_indices) cfg.query_tokens doc_indices

abbrev pub prefix_token_count : RagConfig → ℕ
prefix_token_count cfg = cfg.top_k * cfg.tokens_per_doc + cfg.query_tokens

pub record RagResult (f : Figures) : Type 0 where
  pub stats : CacheStats f
  pub prefix_tokens : ℕ
  pub cost_per_miss_usd : f.Float
  pub without_cache_usd : f.Float
  pub with_cache_usd : f.Float
  pub savings_usd : f.Float
  pub savings_pct : f.Float
  pub monthly_without : f.Float
  pub monthly_with : f.Float
  pub monthly_savings : f.Float

module _ {f : Figures} (ops : FloatOps f) (sha256 : Str → Str) (cfg : RagConfig) where
  abbrev pub rag_round : Request → Round f
  rag_round r =
      let hash = hash_prefix sha256 (rag_prefix cfg r) in
      record {
        hash = hash;
        entry =
            new_entry_for_token_count ops hash (prefix_token_count cfg) cfg.model r.cached_at
              r.accessed_at;
        looked_up = r.looked_up;
      }

  -- The cache after the loop.
  unfoldable pub rag_cache : List Request → PrefixCache f
  rag_cache requests = serve_all (map rag_round requests) (new_prefix_cache 100_000)

  -- The percentage that is saved.
  abbrev pub percent : f.Float → f.Float → f.Float
  percent part whole =
      if ops.is_positive whole
      then ops.mul (ops.div part whole) (ops.literal (codes "100"))
      else ops.literal (codes "0.0")

  -- `RunRAGSimulation`, but for the time that it took
  unfoldable pub run_rag_simulation : List Request → RagResult f
  run_rag_simulation requests =
      let done = stats (rag_cache requests) in
      let cost_per_miss = cost_usd ops cfg.model (prefix_token_count cfg) in
      let without_cache = ops.mul cost_per_miss (ops.of_int cfg.num_requests) in
      let with_cache = ops.mul cost_per_miss (ops.of_int (nat_of done.cache_misses)) in
      let savings = ops.sub without_cache with_cache in
      let per_req_without = ops.div without_cache (ops.of_int cfg.num_requests) in
      let per_req_with = ops.div with_cache (ops.of_int cfg.num_requests) in
      let monthly_requests = ops.mul (ops.of_int cfg.requests_per_day) (ops.literal (codes "30")) in
      let monthly_without = ops.mul per_req_without monthly_requests in
      let monthly_with = ops.mul per_req_with monthly_requests in
      record {
        stats = done;
        prefix_tokens = prefix_token_count cfg;
        cost_per_miss_usd = cost_per_miss;
        without_cache_usd = without_cache;
        with_cache_usd = with_cache;
        savings_usd = savings;
        savings_pct = percent savings without_cache;
        monthly_without = monthly_without;
        monthly_with = monthly_with;
        monthly_savings = ops.sub monthly_without monthly_with;
      }
