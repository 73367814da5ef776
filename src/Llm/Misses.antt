-- ===== src/Llm/Misses.antt =====
-- internal/llm: how many rounds of a simulation miss.
use distributed_caching.Prelude.{
  ℕ, suc, ◌+◌, ◌-◌, ◌^◌, ◌≤◌, ◌<◌, ◌≡◌, refl, ap, subst, ◌∙◌, inl, inr, true, false, none, some,
  List, [], ◌∷◌, map, Str, Key, str_key, if◌then◌else◌, length, All, int64, inc64, arith,
  Option-cases, Bool-cases, leb,
}
use distributed_caching.Prelude.Sets.{elem}
use distributed_caching.Prelude.Dict.{
  IsMap, lookup, insert, has, has-insert, insert-IsMap, length-insert_new, length-insert_old,
  has-insert_old,
}
use distributed_caching.Llm.{
  Figures, PrefixCacheEntry, PrefixCache, new_prefix_cache, lookup_prefix, count_use, store_prefix,
  evict_oldest,
}
use distributed_caching.Llm.Models.{Round, store_missed, serve_prefix, serve_all, stats}

-- The requests for something that none before it asked for.
abbrev pub first_times : {A : Type 0} ⦃k : Key A⦄ → List A → List A → ℕ
first_times seen [] = 0
first_times seen (x ∷ xs) =
    if elem x seen then first_times seen xs else suc (first_times (x ∷ seen) xs)

module _ {f : Figures} where
  -- The cache holds just these prefixes.
  pub record Caches (seen : List Str) (c : PrefixCache f) : Type 0 where
    pub map : IsMap c.entries
    pub same : (k : Str) → has k c.entries ≡ elem k seen
    pub sized : length c.entries ≡ length seen

  -- The counters: `t` requests, of which `h` hit.
  pub record Counts (t h : ℕ) (c : PrefixCache f) : Type 0 where
    pub total : c.total_requests ≡ int64 t
    pub hits : c.cache_hits ≡ int64 h

  -- The cache as a lookup leaves it on a miss.
  abbrev counted : PrefixCache f → PrefixCache f
  counted c = record c { total_requests = inc64 c.total_requests }

  -- The cache with one more entry.
  abbrev stored_in : PrefixCacheEntry f → PrefixCache f → PrefixCache f
  stored_in e c = record c { entries = insert e.prefix_hash e c.entries }

  lookup_prefix_hit :
      (x : Round f) (c : PrefixCache f) {a : PrefixCacheEntry f}
      → lookup x.hash c.entries ≡ some a
      → (lookup_prefix x.hash x.looked_up c) ≡ (
        count_use x.hash x.looked_up a (counted c),
        some (record a { hit_count = inc64 a.hit_count; last_accessed_at = x.looked_up }),
      )
  unfolding lookup_prefix
  lookup_prefix_hit x c e = rw (e, lookup_prefix) refl

  lookup_prefix_miss :
      (x : Round f) (c : PrefixCache f)
      → lookup x.hash c.entries ≡ none
      → lookup_prefix x.hash x.looked_up c ≡ (counted c, none)
  unfolding lookup_prefix
  lookup_prefix_miss x c e = rw (e, lookup_prefix) refl

  serve_prefix_hit :
      (x : Round f) (c : PrefixCache f) {a : PrefixCacheEntry f}
      → lookup x.hash c.entries ≡ some a
      → serve_prefix x c ≡ count_use x.hash x.looked_up a (counted c)
  unfolding serve_prefix
  serve_prefix_hit x c e = ap (store_missed x) (lookup_prefix_hit x c e)

  evict_oldest-free :
      (c : PrefixCache f) → leb c.max_size (length c.entries) ≡ false → evict_oldest c ≡ c
  unfolding evict_oldest
  evict_oldest-free c free = rw (free, evict_oldest) refl

  serve_prefix_miss :
      (x : Round f) (c : PrefixCache f)
      → lookup x.hash c.entries ≡ none
      → leb c.max_size (length c.entries) ≡ false
      → serve_prefix x c ≡ stored_in x.entry (counted c)
  unfolding serve_prefix store_prefix
  serve_prefix_miss x c e free =
      ap (store_missed x) (lookup_prefix_miss x c e)
      ∙ ap (stored_in x.entry) (evict_oldest-free (counted c) free)

  serve_prefix-known :
      (x : Round f) (c : PrefixCache f) (seen : List Str) (t h : ℕ)
      → Caches seen c
      → Counts t h c
      → t < 2 ^ 63 - 1
      → h ≤ t
      → elem x.hash seen ≡ true
      → Caches seen (serve_prefix x c)
        × Counts (t + 1) (h + 1) (serve_prefix x c)
        × ((serve_prefix x c).max_size ≡ c.max_size)
  unfolding count_use
  serve_prefix-known x c seen t h v n lt le known = elim (Option-cases (lookup x.hash c.entries)) [
    | inl e ↦ absurd (ground (arith, v.same x.hash))
    | inr (a, e) ↦ rw (serve_prefix_hit x c e) (
      record {
        map = insert-IsMap x.hash _ c.entries v.map;
        same = λ k. has-insert_old x.hash k _ c.entries e ∙ v.same k;
        sized = length-insert_old x.hash _ c.entries e ∙ v.sized;
      },
      record { total = omega (arith, n.total, lt); hits = omega (arith, n.hits, lt, le) },
      refl,
    )
  ]

  serve_prefix-new :
      (x : Round f) (c : PrefixCache f) (seen : List Str) (t h : ℕ)
      → Caches seen c
      → Counts t h c
      → t < 2 ^ 63 - 1
      → x.entry.prefix_hash ≡ x.hash
      → length seen < c.max_size
      → elem x.hash seen ≡ false
      → Caches (x.hash ∷ seen) (serve_prefix x c)
        × Counts (t + 1) h (serve_prefix x c)
        × ((serve_prefix x c).max_size ≡ c.max_size)
  serve_prefix-new x c seen t h v n lt own room new =
      elim (Option-cases (lookup x.hash c.entries)) [
        | inr (a, e) ↦ absurd (ground (arith, v.same x.hash))
        | inl e ↦
            let free : leb c.max_size (length c.entries) ≡ false = ground (arith, v.sized) in
            let absent : lookup x.entry.prefix_hash c.entries ≡ none =
              ap (λ k. lookup k c.entries) own ∙ e in
            rw (serve_prefix_miss x c e free) (
              subst (λ k. Caches (k ∷ seen) (stored_in x.entry (counted c))) own
                  (record {
                    map = insert-IsMap x.entry.prefix_hash _ c.entries v.map;
                    same = λ k.
                        ground
                          (arith, has-insert x.entry.prefix_hash k x.entry c.entries, v.same k);
                    sized = omega (
                      arith,
                      length-insert_new x.entry.prefix_hash x.entry c.entries absent,
                      v.sized,
                    );
                  }),
              record { total = omega (arith, n.total, lt); hits = n.hits },
              refl,
            )
      ]

  abbrev pub hashes : List (Round f) → List Str
  hashes = map (λ x. x.hash)

  -- Each round makes a request, and all but the first ones for a prefix hit.
  serve_all-Counts :
      (xs : List (Round f)) (c : PrefixCache f) (seen : List Str) (t h : ℕ)
      → Caches seen c
      → Counts t h c
      → h ≤ t
      → t + length xs < 2 ^ 63
      → All (λ x. x.entry.prefix_hash ≡ x.hash) xs
      → length seen + first_times seen (hashes xs) ≤ c.max_size
      → (hits : ℕ) × (hits + first_times seen (hashes xs) ≡ h + length xs)
        × Counts (t + length xs) hits (serve_all xs c)
  unfolding serve_all
  serve_all-Counts [] c seen t h v n le lt own room =
      (h, omega arith, subst (λ k. Counts k h c) (omega arith) n)
  serve_all-Counts (x ∷ xs) c seen t h v n le lt own room = elim (Bool-cases (elem x.hash seen)) [
    | inl old ↦
        let (v', n', size) = serve_prefix-known x c seen t h v n (omega (arith, lt)) le old in
        let fewer : length seen + first_times seen (hashes xs) ≤ (serve_prefix x c).max_size =
          ground arith in
        let (hits, sum, done) =
          serve_all-Counts xs (serve_prefix x c) seen (t + 1) (h + 1) v' n' (omega arith)
            (omega (arith, lt)) own.1 fewer in
        (hits, ground arith, subst (λ k. Counts k hits (serve_all (x ∷ xs) c)) (omega arith) done)
    | inr new ↦
        let less : length seen < c.max_size = ground arith in
        let (v', n', size) = serve_prefix-new x c seen t h v n (omega (arith, lt)) own.0 less new in
        let fewer : length (x.hash ∷ seen) + first_times (x.hash ∷ seen) (hashes xs)
            ≤ (serve_prefix x c).max_size =
          ground arith in
        let (hits, sum, done) =
          serve_all-Counts xs (serve_prefix x c) (x.hash ∷ seen) (t + 1) h v' n' (omega arith)
            (omega (arith, lt)) own.1 fewer in
        (hits, ground arith, subst (λ k. Counts k hits (serve_all (x ∷ xs) c)) (omega arith) done)
  ]

  -- The misses that the statistics of a new cache report in the end.
  pub serve_all-misses :
      (xs : List (Round f)) (size : ℕ)
      → length xs < 2 ^ 63
      → All (λ x. x.entry.prefix_hash ≡ x.hash) xs
      → first_times [] (hashes xs) ≤ size
      → (stats (serve_all xs (new_prefix_cache size))).cache_misses
        ≡ int64 (first_times [] (hashes xs))
  unfolding stats new_prefix_cache lookup
  serve_all-misses xs size lt own room =
      let (hits, sum, done) =
        serve_all-Counts xs (new_prefix_cache size) [] 0 0
          (record { map = tt; same = λ k. refl; sized = refl })
          (record { total = refl; hits = refl }) (omega arith) (omega (arith, lt)) own
          (omega (arith, room)) in
      omega (arith, done.total, done.hits, sum, lt)
