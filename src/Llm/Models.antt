-- ===== src/Llm/Models.antt =====
-- internal/llm/models.go and the hash and the statistics of prefix_cache.go. Floating point and
-- SHA-256 belong to the standard library and are parameters. A count of tokens, heads or layers is a
-- natural number.
use distributed_caching.Prelude.{
  ℕ, ◌+◌, ◌-◌, ◌*◌, ◌/◌, ◌%◌, ◌^◌, List, [], ◌∷◌, ◌++◌, Str, codes, length, take, if◌then◌else◌,
  ltb, Time, Int64, int64, Bool, Option, none, some,
}
use distributed_caching.Cluster.Hash.{digits}
use distributed_caching.Llm.{Figures, PrefixCacheEntry, PrefixCache, lookup_prefix, store_prefix}

-- The operations on float64 that the cost figures use; `literal` reads a constant of the source.
pub record FloatOps (f : Figures) : Type 0 where
  pub literal : Str → f.Float
  pub of_int : ℕ → f.Float
  pub sub : f.Float → f.Float → f.Float
  pub mul : f.Float → f.Float → f.Float
  pub div : f.Float → f.Float → f.Float
  pub is_positive : f.Float → Bool

pub record ModelConfig : Type 0 where
  pub name : Str
  pub num_layers : ℕ
  pub num_kv_heads : ℕ
  pub num_q_heads : ℕ
  pub head_dim : ℕ
  pub max_context_len : ℕ
  pub params_billion : Str  -- the constant as it is written

-- `KVCacheSizePerToken`
unfoldable pub kv_cache_size_per_token : ModelConfig → Int64
kv_cache_size_per_token m = (2 * m.num_kv_heads * m.head_dim * 2 * m.num_layers + 2 ^ 63) % 2 ^ 64

module _ {f : Figures} (ops : FloatOps f) where
  unfoldable pub attention_flops : ModelConfig → ℕ → f.Float
  attention_flops m seq_len =
      let heads = ops.mul (ops.literal (codes "4.0")) (ops.of_int m.num_q_heads) in
      let dims = ops.mul heads (ops.of_int m.head_dim) in
      let flops_per_layer = ops.mul (ops.mul dims (ops.of_int seq_len)) (ops.of_int seq_len) in
      ops.mul flops_per_layer (ops.of_int m.num_layers)

  unfoldable pub attention_tflops : ModelConfig → ℕ → f.Float
  attention_tflops m seq_len = ops.div (attention_flops m seq_len) (ops.literal (codes "1e12"))

  unfoldable pub cost_usd : ModelConfig → ℕ → f.Float
  cost_usd m seq_len =
      let seconds_cost = ops.div (attention_tflops m seq_len) (ops.literal (codes "312.0")) in
      let hourly_cost = ops.div seconds_cost (ops.literal (codes "3600.0")) in
      ops.mul hourly_cost (ops.literal (codes "2.50"))

-- `json.Marshal` of a list of integers
unfoldable pub json_rest : List ℕ → Str
json_rest [] = b']' ∷ []
json_rest (t ∷ ts) = b',' ∷ digits (t + 1) t ++ json_rest ts

unfoldable pub json_ints : List ℕ → Str
json_ints [] = codes "[]"
json_ints (t ∷ ts) = b'[' ∷ digits (t + 1) t ++ json_rest ts

-- `hex.EncodeToString`
abbrev hex_digit : ℕ → ℕ
hex_digit n = if ltb n 10 then b'0' + n else b'a' + (n - 10)

unfoldable pub hex : Str → Str
hex [] = []
hex (b ∷ bs) = hex_digit (b / 16) ∷ hex_digit (b % 16) ∷ hex bs

-- `HashPrefix`, over what `sha256.Sum256` computes
unfoldable pub hash_prefix : (Str → Str) → List ℕ → Str
hash_prefix sha256 tokens = hex (take 16 (sha256 (json_ints tokens)))

module _ {f : Figures} (ops : FloatOps f) where
  -- `newEntryForTokenCount`, with the two readings of the clock
  unfoldable pub new_entry_for_token_count :
      Str → ℕ → ModelConfig → Time → Time → PrefixCacheEntry f
  new_entry_for_token_count hash token_count m cached_at accessed_at = record {
    prefix_hash = hash;
    model = m.name;
    token_count = token_count;
    tflops_cost = attention_tflops ops m token_count;
    cost_usd = cost_usd ops m token_count;
    hit_count = int64 0;
    cached_at = cached_at;
    last_accessed_at = accessed_at;
  }

  -- `NewEntryForPrefix`
  unfoldable pub new_entry_for_prefix :
      (Str → Str) → List ℕ → ModelConfig → Time → Time → PrefixCacheEntry f
  new_entry_for_prefix sha256 tokens m cached_at accessed_at = record {
    prefix_hash = hash_prefix sha256 tokens;
    model = m.name;
    token_count = length tokens;
    tflops_cost = attention_tflops ops m (length tokens);
    cost_usd = cost_usd ops m (length tokens);
    hit_count = int64 0;
    cached_at = cached_at;
    last_accessed_at = accessed_at;
  }

-- `CacheStats`, but for the hit rate
pub record CacheStats (f : Figures) : Type 0 where
  pub total_requests : Int64
  pub cache_hits : Int64
  pub cache_misses : Int64
  pub entries_stored : ℕ
  pub total_saved_tflops : f.Float
  pub total_saved_usd : f.Float

-- `a - b` on int64
abbrev pub sub64 : Int64 → Int64 → Int64
sub64 x y = (x + 2 ^ 63 + (2 ^ 64 - y)) % 2 ^ 64

unfoldable pub stats : {f : Figures} → PrefixCache f → CacheStats f
stats c = record {
  total_requests = c.total_requests;
  cache_hits = c.cache_hits;
  cache_misses = sub64 c.total_requests c.cache_hits;
  entries_stored = length c.entries;
  total_saved_tflops = c.total_saved_tflops;
  total_saved_usd = c.total_saved_usd;
}

-- One round of a simulation: the hash of a prefix, the entry that a miss stores, and the reading of
-- the clock that the lookup makes.
pub record Round (f : Figures) : Type 0 where
  pub hash : Str
  pub entry : PrefixCacheEntry f
  pub looked_up : Time

module _ {f : Figures} where
  -- A miss stores the entry.
  abbrev pub store_missed : Round f → PrefixCache f × Option (PrefixCacheEntry f) → PrefixCache f
  store_missed x (c, none) = store_prefix x.entry c
  store_missed x (c, some e) = c

  unfoldable pub serve_prefix : Round f → PrefixCache f → PrefixCache f
  serve_prefix x c = store_missed x (lookup_prefix x.hash x.looked_up c)

  unfoldable pub serve_all : List (Round f) → PrefixCache f → PrefixCache f
  serve_all [] c = c
  serve_all (x ∷ xs) c = serve_all xs (serve_prefix x c)
