-- ===== src/Eviction/Random.antt =====
-- internal/eviction/random.go: the keys in a slice, from which a random index picks the victim.
pub mod Slice
pub mod Laws
use distributed_caching.Prelude.{
  ℕ, suc, ◌-◌, ◌<◌, Bool, true, false, Option, none, some, ite, ◌==◌, if◌then◌else◌, Str, str_key,
  List, [], ◌∷◌, ◌++◌, codes, length, get_or, set, take,
}
use distributed_caching.Policy.{EvictionPolicy}

-- `*rand.Rand` of the standard library: a state, and a draw below a positive bound.
pub record Rand : Type 1 where
  pub State : Type 0
  pub intn : ℕ → State → ℕ × State
  pub intn-lt : (n : ℕ) (s : State) → 0 < n → (intn n s).0 < n

module _ (r : Rand) where
  pub record Random : Type 0 where
    pub keys : List Str
    pub rng : r.State

-- The loop of `OnEvict`: the first index that holds the key.
unfoldable pub index_of : Str → List Str → Option ℕ
index_of key [] = none
index_of key (k ∷ keys) =
    ite (str_key.dec k key) (some 0)
      (elim (index_of key keys) [ none ↦ none | some i ↦ some (suc i) ])

-- `keys[i] = keys[len(keys)-1]; keys = keys[:len(keys)-1]`
abbrev pub swap_truncate : ℕ → List Str → List Str
swap_truncate i keys = take (length keys - 1) (set keys i (get_or keys (length keys - 1) []))

unfoldable pub remove : Str → List Str → List Str
remove key keys = elim (index_of key keys) [ none ↦ keys | some i ↦ swap_truncate i keys ]

module _ {r : Rand} where
  -- `NewRandom`, given the seeded source
  unfoldable pub new_random : r.State → Random r
  new_random rng = record { keys = []; rng = rng }

  unfoldable pub on_access : Str → Random r → Random r
  on_access key s = s

  unfoldable pub on_insert : Str → Random r → Random r
  on_insert key s = record s { keys = s.keys ++ key ∷ [] }

  unfoldable pub on_evict : Str → Random r → Random r
  on_evict key s = record s { keys = remove key s.keys }

  unfoldable pub evict : Random r → Option Str × Random r
  evict s =
      if length s.keys == 0
      then (none, s)
      else (let (i, rng) = r.intn (length s.keys) s.rng in
          (some (get_or s.keys i []), record s { rng = rng }))

unfoldable pub random_policy : Rand → EvictionPolicy
random_policy r = record {
  State = Random r;
  on_access = λ now. on_access;
  on_insert = λ now key expires_at. on_insert key;
  on_evict = on_evict;
  evict = evict;
  name = codes "random";
}
