-- ===== src/Api.antt =====
-- internal/api/middleware.go: the cache-aside reads and writes of products, over the interface of a
-- cache (internal/shared/cache.go) and a strategy of internal/invalidation. The database and the JSON
-- codec are arguments: internal/db is SQL for a database server.
pub mod Debug
pub mod Invalidation
pub mod Consistency
pub mod Handlers
use distributed_caching.Prelude.{
  ℕ, ◌≡◌, Bool, true, false, Option, none, some, List, [], ◌∷◌, ◌++◌, Str, codes, Time, Duration,
  seconds, is_some,
}
use distributed_caching.Policy.{EvictionPolicy}
use distributed_caching.Cache.{InMemoryCache}
use distributed_caching.Cache
use distributed_caching.Api.Invalidation.{SharedCache, Strategy, Pending, on_write}

-- A float64 is its bits here, and a time the number that the codec writes for it.
pub record Product : Type 0 where
  pub id : Str
  pub name : Str
  pub description : Str
  pub price_usd : ℕ
  pub category : Str
  pub created_at : Time
  pub updated_at : Time

pub record DbProduct : Type 0 where
  pub id : Str
  pub name : Str
  pub description : Str
  pub price_usd : ℕ
  pub category : Str
  pub created_at : Time
  pub updated_at : Time

-- A field that is not given is left as it is.
pub record ProductUpdateRequest : Type 0 where
  pub name : Option Str
  pub description : Option Str
  pub price_usd : Option ℕ
  pub category : Option Str

pub data DbResult : Type 0 where
  found : DbProduct → DbResult
  not_found failure : DbResult

-- `db.DB`
pub record Database : Type 1 where
  pub State : Type 0
  pub get_product : Str → State → DbResult
  pub update_product : Str → ProductUpdateRequest → State → State × DbResult

-- `json.Marshal` and `json.Unmarshal` on products: what is written is read back. The texts of a
-- product are valid UTF-8, as those of the database are; the package would replace other bytes.
pub record Codec : Type 0 where
  pub marshal : Product → Option Str
  pub unmarshal : Str → Option Product
  pub unmarshal-marshal : (p : Product) {v : Str} → marshal p ≡ some v → unmarshal v ≡ some p

abbrev pub default_product_ttl : Duration
default_product_ttl = seconds 300

abbrev pub cache_key : Str → Str
cache_key id = codes "product:" ++ id

-- `dbToAPIProduct`
abbrev pub db_to_api_product : DbProduct → Product
db_to_api_product d = record {
  id = d.id;
  name = d.name;
  description = d.description;
  price_usd = d.price_usd;
  category = d.category;
  created_at = d.created_at;
  updated_at = d.updated_at;
}

pub data Answer : Type 0 where
  hit miss : Product → Answer
  product_not_found db_unavailable : Answer

-- What `UpdateProduct` answers: a product, `ErrNotFound`, or another error.
pub data Updated : Type 0 where
  updated : Product → Updated
  update_not_found update_failed : Updated

module _ (cache : SharedCache) (db : Database) (codec : Codec) where
  -- The part of `GetProduct` that populates the cache.
  unfoldable pub populate : Str → Product → Time → cache.State → cache.State
  populate id product now s = elim (codec.marshal product) [
    | none ↦ s
    | some value ↦ (cache.set (cache_key id) value default_product_ttl now s).0
  ]

  -- The part of `GetProduct` after a miss.
  unfoldable pub fetch : Str → Time → db.State → cache.State → cache.State × Answer
  fetch id now d s = elim (db.get_product id d) [
    | found p ↦ (populate id (db_to_api_product p) now s, miss (db_to_api_product p))
    | not_found ↦ (s, product_not_found)
    | failure ↦ (s, db_unavailable)
  ]

  -- `GetProduct`: an error of the cache counts as a miss, and so does a value that does not decode,
  -- which is deleted.
  unfoldable pub get_product : Str → Time → db.State → cache.State → cache.State × Answer
  get_product id now d s =
      let (s1, answer) = cache.get (cache_key id) now s in
      elim answer [
        | none ↦ fetch id now d s1
        | some none ↦ fetch id now d s1
        | some (some value) ↦ elim (codec.unmarshal value) [
          | none ↦ fetch id now d (cache.delete (cache_key id) now s1).0
          | some p ↦ (s1, hit p)
        ]
      ]

  -- The bytes that are handed to the strategy: nil where the codec fails, whose error is dropped.
  abbrev pub bytes_of : Option Str → Str
  bytes_of none = []
  bytes_of (some v) = v

  -- `UpdateProduct`: an error of the strategy is dropped.
  unfoldable pub update_product :
      Strategy
      → Str
      → ProductUpdateRequest
      → Time
      → db.State
      → Pending cache
      → db.State × Pending cache × Updated
  update_product strategy id req now d s =
      let (d', r) = db.update_product id req d in
      elim r [
        | found p ↦ (
          d',
          on_write cache strategy (cache_key id) (bytes_of (codec.marshal (db_to_api_product p)))
              now s,
          updated (db_to_api_product p),
        )
        | not_found ↦ (d', s, update_not_found)
        | failure ↦ (d', s, update_failed)
      ]
