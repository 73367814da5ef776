-- ===== src/Eviction/Random/Laws.antt =====
-- internal/eviction/random.go: the random policy and the laws of an eviction policy, over any
-- random source.
use distributed_caching.Prelude.{
  ℕ, zero, suc, ◌<◌, ◌≡◌, refl, true, false, none, some, Str, str_key, List, [], ◌∷◌, length,
  get_or, arith,
}
use distributed_caching.Policy.{Laws}
use distributed_caching.Cache.{InMemoryCache, new}
use distributed_caching.Cache.Valid
use distributed_caching.Eviction.Random.{
  Rand, Random, on_access, on_insert, on_evict, evict, random_policy, new_random,
}
use distributed_caching.Eviction.Random.Slice.{
  contains, Distinct, contains-append, append-Distinct, contains-remove, remove-Distinct,
}

contains-get_or : (ks : List Str) (i : ℕ) → i < length ks → contains (get_or ks i []) ks ≡ true
contains-get_or [] i h = elim h [ ]
contains-get_or (k ∷ ks) zero h = ground arith
contains-get_or (k ∷ ks) (suc i) h = ground (arith, contains-get_or ks i)

module _ (r : Rand) where
  keys-evict : (s : Random r) → (evict s).1.keys ≡ s.keys
  unfolding evict
  keys-evict s = ground arith

  evict-some : (s : Random r) {k : Str} → (evict s).0 ≡ some k → contains k s.keys ≡ true
  unfolding evict
  evict-some s e = ground (
    arith,
    r.intn-lt (length s.keys) s.rng,
    contains-get_or s.keys (r.intn (length s.keys) s.rng).0,
  )

  evict-none : (s : Random r) → (evict s).0 ≡ none → (j : Str) → contains j s.keys ≡ false
  unfolding evict
  evict-none s e j = go s.keys refl
    where
      go : (ks : List Str) → s.keys ≡ ks → contains j s.keys ≡ false
      go [] q = rw q refl
      go (k ∷ ks) q = absurd (ground arith)

  -- Only a key that the policy tracks is ever drawn, and none only if it tracks none.
  pub random_laws : Laws (random_policy r)
  unfolding random_policy on_access on_insert on_evict
  random_laws = record {
    IsValid = λ s. Distinct s.keys;
    tracks = λ s j. contains j s.keys;
    on_access-IsValid = λ t k s v. v;
    on_insert-IsValid = λ t k e s absent v. append-Distinct k s.keys absent v;
    on_evict-IsValid = λ k s v. remove-Distinct k s.keys v;
    evict-IsValid = λ s v. rw (keys-evict s) v;
    tracks-on_access = λ t k j s v. refl;
    tracks-on_insert = λ t k j e s absent v. contains-append j k s.keys;
    tracks-on_evict = λ k j s v. contains-remove j k s.keys v;
    tracks-evict = λ j s v. rw (keys-evict s) refl;
    evict-some = λ s v e. evict-some s e;
    evict-none = λ s v e. evict-none s e;
  }

  -- A cache over a new random policy.
  unfoldable pub random_cache : r.State → ℕ → InMemoryCache (random_policy r)
  unfolding random_policy
  random_cache seed capacity = new capacity (new_random seed)

  pub random_cache-IsValid :
      (seed : r.State) (capacity : ℕ)
      → 0 < capacity
      → Valid.IsValid random_laws (random_cache seed capacity)
  unfolding random_cache random_policy random_laws new_random
  random_cache-IsValid seed capacity h =
      Valid.new-IsValid random_laws capacity (new_random seed) h tt (λ j. refl)
