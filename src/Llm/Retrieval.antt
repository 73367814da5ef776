-- ===== src/Llm/Retrieval.antt =====
-- internal/llm/rag.go: which requests of the simulation miss.
use distributed_caching.Prelude.{
  ℕ, zero, suc, ◌^◌, ◌≤◌, ◌<◌, ◌≡◌, refl, ap, ap₂, sym, ◌∙◌, true, List, [], ◌∷◌, map, Str, str_key,
  length, get_or, All, int64, arith,
}
use distributed_caching.Prelude.Sets.{elem, elem_self}
use distributed_caching.Cluster.Ring.{sort, insert_sorted}
use distributed_caching.Llm.{Figures}
use distributed_caching.Llm.Models.{FloatOps, hash_prefix, new_entry_for_token_count}
use distributed_caching.Llm.Misses.{first_times, hashes, serve_all-misses}
use distributed_caching.Llm.Rag.{
  RagConfig, Request, rag_prefix, rag_round, rag_cache, run_rag_simulation, repeat_token,
  index_tokens,
}

-- A function that keeps the elements of a list apart.
abbrev pub Separates : (Str → Str) → List Str → Type 0
Separates g us = (a b : Str) → elem a us ≡ true → elem b us ≡ true → g a ≡ g b → a ≡ b

elem-map :
    (g : Str → Str) (us : List Str) (a : Str) (xs : List Str)
    → Separates g us
    → elem a us ≡ true
    → ((b : Str) → elem b xs ≡ true → elem b us ≡ true)
    → elem (g a) (map g xs) ≡ elem a xs
elem-map g us a [] apart here within = refl
elem-map g us a (x ∷ xs) apart here within = elim (str_key.dec x a) [
  | yes e ↦ rw e (ground arith)
  | no d ↦ ground (
    arith,
    elem-map g us a xs apart here (λ b i. within b (ground arith)),
    apart x a (within x (elem_self x xs)) here,
  )
]

-- To keep elements apart is enough to keep the first times.
first_times-map :
    (g : Str → Str) (us seen xs : List Str)
    → Separates g us
    → ((b : Str) → elem b seen ≡ true → elem b us ≡ true)
    → ((b : Str) → elem b xs ≡ true → elem b us ≡ true)
    → first_times (map g seen) (map g xs) ≡ first_times seen xs
first_times-map g us seen [] apart h k = refl
first_times-map g us seen (x ∷ xs) apart h k =
    let here = k x (elem_self x xs) in
    ground (
      arith,
      elem-map g us x seen apart here h,
      first_times-map g us seen xs apart h (λ b i. k b (ground arith)),
      first_times-map g us (x ∷ seen) xs apart (λ b i. ground (arith, h b, here))
          (λ b i. k b (ground arith)),
    )

elem-map_in :
    (g : Str → Str) (a : Str) (xs : List Str) → elem a xs ≡ true → elem (g a) (map g xs) ≡ true
elem-map_in g a [] e = absurd (ground arith)
elem-map_in g a (x ∷ xs) e = elim (str_key.dec x a) [
  | yes p ↦ rw p (elem_self (g a) (map g xs))
  | no d ↦ ground (arith, elem-map_in g a xs)
]

All-elem :
    (n : ℕ) (us : List Str) (a : Str) → All (λ u. length u ≡ n) us → elem a us ≡ true → length a ≡ n
All-elem n [] a h e = absurd (ground arith)
All-elem n (u ∷ us) a h e = elim (str_key.dec u a) [
  | yes p ↦ ap length (sym p) ∙ h.0
  | no d ↦ All-elem n us a h.1 (ground arith)
]

abbrev skip : ℕ → Str → Str
skip zero xs = xs
skip (suc n) [] = []
skip (suc n) (x ∷ xs) = skip n xs

-- Different lists of as many documents make different prefixes.
index_tokens-injective :
    (q : ℕ) (is js : List ℕ)
    → length is ≡ length js
    → index_tokens q is ≡ index_tokens q js
    → is ≡ js
unfolding index_tokens repeat_token
index_tokens-injective q [] [] n e = refl
index_tokens-injective q [] (j ∷ js) n e = absurd (omega (arith, n))
index_tokens-injective q (i ∷ is) [] n e = absurd (omega (arith, n))
index_tokens-injective q (i ∷ is) (j ∷ js) n e =
    let first : i ≡ j = omega (arith, ap (λ l. get_or l 0 0) e) in
    ap₂ (λ x xs. x ∷ xs) first (index_tokens-injective q is js (omega (arith, n)) (ap (skip 8) e))

length-insert_sorted : (t : ℕ) (xs : List ℕ) → length (insert_sorted t xs) ≡ suc (length xs)
unfolding insert_sorted
length-insert_sorted t [] = refl
length-insert_sorted t (x ∷ xs) = ground (arith, length-insert_sorted t xs)

length-sort : (xs : List ℕ) → length (sort xs) ≡ length xs
unfolding sort
length-sort [] = refl
length-sort (x ∷ xs) = length-insert_sorted x (sort xs) ∙ ap suc (length-sort xs)

-- The documents of a request in ascending order, one as often as it was drawn.
abbrev pub document_sets : List Request → List (List ℕ)
document_sets = map (λ r. sort r.draws)

module _ {f : Figures} (ops : FloatOps f) (sha256 : Str → Str) (cfg : RagConfig) where
  hashes-rag_round :
      (rs : List Request)
      → hashes (map (rag_round ops sha256 cfg) rs)
        ≡ map (λ is. hash_prefix sha256 (index_tokens cfg.query_tokens is)) (document_sets rs)
  hashes-rag_round [] = refl
  hashes-rag_round (r ∷ rs) = ap (λ l. (rag_round ops sha256 cfg r).hash ∷ l) (hashes-rag_round rs)

  rag_round-own :
      (rs : List Request)
      → All (λ x. x.entry.prefix_hash ≡ x.hash) (map (rag_round ops sha256 cfg) rs)
  unfolding new_entry_for_token_count
  rag_round-own [] = tt
  rag_round-own (r ∷ rs) = (refl, rag_round-own rs)

  map-rag_prefix :
      (rs : List Request)
      → map (rag_prefix cfg) rs ≡ map (index_tokens cfg.query_tokens) (document_sets rs)
  map-rag_prefix [] = refl
  map-rag_prefix (r ∷ rs) = ap (λ l. rag_prefix cfg r ∷ l) (map-rag_prefix rs)

  length-rag_rounds : (rs : List Request) → length (map (rag_round ops sha256 cfg) rs) ≡ length rs
  length-rag_rounds [] = refl
  length-rag_rounds (r ∷ rs) = ap suc (length-rag_rounds rs)

  document_sets-sized :
      (rs : List Request)
      → All (λ r. length r.draws ≡ cfg.top_k) rs
      → All (λ u. length u ≡ cfg.top_k) (document_sets rs)
  document_sets-sized [] h = tt
  document_sets-sized (r ∷ rs) h = (length-sort r.draws ∙ h.0, document_sets-sized rs h.1)

  -- The hash keeps the documents of the requests apart, if it keeps their prefixes apart.
  document_sets-Separates :
      (rs : List Request)
      → All (λ r. length r.draws ≡ cfg.top_k) rs
      → Separates (hash_prefix sha256) (map (rag_prefix cfg) rs)
      → Separates (λ is. hash_prefix sha256 (index_tokens cfg.query_tokens is)) (document_sets rs)
  document_sets-Separates rs h apart a b i j e =
      let g = index_tokens cfg.query_tokens in
      let sized = document_sets-sized rs h in
      let inside : (u : Str)
          → elem u (document_sets rs) ≡ true
          → elem (g u) (map (rag_prefix cfg) rs) ≡ true =
        λ u k. ap (elem (g u)) (map-rag_prefix rs) ∙ elem-map_in g u (document_sets rs) k in
      index_tokens-injective cfg.query_tokens a b
        (All-elem cfg.top_k (document_sets rs) a sized i
          ∙ sym (All-elem cfg.top_k (document_sets rs) b sized j))
        (apart (g a) (g b) (inside a i) (inside b j) e)

  -- For fewer than 2^63 requests, each of `top_k` draws, whose prefixes the hash keeps apart, and
  -- among which at most 100,000 draw what no earlier request has drawn: the simulation reports as
  -- many misses as there are such requests. Two requests have drawn the same when they drew the same
  -- documents equally often, in whatever order.
  pub run_rag_simulation-misses :
      (rs : List Request)
      → length rs < 2 ^ 63
      → All (λ r. length r.draws ≡ cfg.top_k) rs
      → Separates (hash_prefix sha256) (map (rag_prefix cfg) rs)
      → first_times [] (document_sets rs) ≤ 100_000
      → (run_rag_simulation ops sha256 cfg rs).stats.cache_misses
        ≡ int64 (first_times [] (document_sets rs))
  unfolding run_rag_simulation rag_cache
  run_rag_simulation-misses rs lt sized apart room =
      let firsts : first_times [] (hashes (map (rag_round ops sha256 cfg) rs))
          ≡ first_times [] (document_sets rs) =
        ap (first_times []) (hashes-rag_round rs)
        ∙ first_times-map _ (document_sets rs) [] (document_sets rs)
            (document_sets-Separates rs sized apart) (λ b i. absurd (ground arith)) (λ b i. i) in
      serve_all-misses (map (rag_round ops sha256 cfg) rs) 100_000
        (omega (arith, length-rag_rounds rs, lt)) (rag_round-own rs) (omega (arith, firsts, room))
      ∙ ap int64 firsts
