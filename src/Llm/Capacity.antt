-- ===== src/Llm/Capacity.antt =====
-- internal/llm/prefix_cache.go: the eviction of `Store`.
use distributed_caching.Prelude.{
  ◌+◌, ◌≤◌, ◌<◌, ◌≡◌, ◌⊎◌, refl, true, [], ◌∷◌, if◌then◌else◌, leb, Str, str_key, Time, inc64,
  arith, length, Option-cases, Bool-cases, inl, inr, is_some,
}
use distributed_caching.Prelude.Dict.{
  Dict, lookup, has, has-true, length-insert, length-insert_old, length-delete, IsMap,
}
use distributed_caching.Llm.{
  Figures, PrefixCacheEntry, PrefixCache, find_oldest, evict_oldest, store_prefix, lookup_prefix,
  count_use,
}

module _ {f : Figures} where
  -- The key that the loop settles on is the one it began with or one of the map.
  find_oldest-has :
      (m : Dict Str (PrefixCacheEntry f)) (k : Str) (t : Time)
      → (find_oldest m k t ≡ k) ⊎ (has (find_oldest m k t) m ≡ true)
  unfolding find_oldest lookup
  find_oldest-has [] k t = inl refl
  find_oldest-has ((j, e) ∷ m) k t =
      ground (arith, find_oldest-has m j e.last_accessed_at, find_oldest-has m k t)

  -- The loop that `Store` runs finds an entry if there is one.
  find_oldest-found :
      (m : Dict Str (PrefixCacheEntry f)) → 0 < length m → has (find_oldest m [] 0) m ≡ true
  unfolding find_oldest lookup
  find_oldest-found [] h = absurd (omega arith)
  find_oldest-found ((j, e) ∷ m) h = ground (arith, find_oldest-has m j e.last_accessed_at)

  evict_oldest-room :
      (c : PrefixCache f)
      → 0 < c.max_size
      → IsMap c.entries
      → length c.entries ≤ c.max_size
      → length (evict_oldest c).entries + 1 ≤ c.max_size
  unfolding evict_oldest
  evict_oldest-room c positive h le = elim (Bool-cases (leb c.max_size (length c.entries))) [
    | inr room ↦ rw room (ground arith)
    | inl full ↦
        let (x, found) = has-true _ c.entries (find_oldest-found c.entries (ground arith)) in
        rw full (omega (arith, le, length-delete (find_oldest c.entries [] 0) c.entries h found))
  ]

  evict_oldest-size : (c : PrefixCache f) → (evict_oldest c).max_size ≡ c.max_size
  unfolding evict_oldest
  evict_oldest-size c = ground arith

  -- A cache of a positive size that holds no more entries than that holds no more after a
  -- `Store`.
  pub store_prefix-bounded :
      (entry : PrefixCacheEntry f) (c : PrefixCache f)
      → 0 < c.max_size
      → IsMap c.entries
      → length c.entries ≤ c.max_size
      → length (store_prefix entry c).entries ≤ (store_prefix entry c).max_size
  unfolding store_prefix
  store_prefix-bounded entry c positive h le = ground (
    arith,
    evict_oldest-room c positive h le,
    length-insert entry.prefix_hash entry (evict_oldest c).entries,
    evict_oldest-size c,
  )

  -- A `Lookup` counts one request, and a hit exactly if the prefix is cached; it keeps the number of
  -- entries.
  pub lookup_prefix-counts :
      (prefix_hash : Str) (now : Time) (c : PrefixCache f)
      → ((lookup_prefix prefix_hash now c).0.total_requests ≡ inc64 c.total_requests)
        × ((lookup_prefix prefix_hash now c).0.cache_hits
            ≡ (if has prefix_hash c.entries then inc64 c.cache_hits else c.cache_hits))
        × (is_some (lookup_prefix prefix_hash now c).1 ≡ has prefix_hash c.entries)
        × (length (lookup_prefix prefix_hash now c).0.entries ≡ length c.entries)
  unfolding lookup_prefix count_use
  lookup_prefix-counts prefix_hash now c = elim (Option-cases (lookup prefix_hash c.entries)) [
    | inl e ↦ rw (e, lookup_prefix) (refl, refl, refl, refl)
    | inr (x, e) ↦
        rw (e, lookup_prefix) (refl, refl, refl, length-insert_old prefix_hash _ c.entries e)
  ]
