-- ===== src/Api/Consistency.antt =====
-- internal/api over internal/cache: what a read returns after a write, for each strategy.
use distributed_caching.Prelude.{
  ◌≡◌, ◌≤◌, ◌+◌, ◌*◌, refl, none, some, List, Str, str_key, Time, second, arith,
}
use distributed_caching.Prelude.Dict.{lookup-delete}
use distributed_caching.Policy.{EvictionPolicy, Laws}
use distributed_caching.Cache.{InMemoryCache, SetError, expiry, is_expired}
use distributed_caching.Cache
use distributed_caching.Cache.Valid.{IsValid}
use distributed_caching.Cache.Reads.{get-set}
use distributed_caching.Api.Invalidation.{
  SharedCache, in_memory, write_through, Pending, on_write, delete_later, write_through_ttl,
}
use distributed_caching.Api.{
  DbProduct, ProductUpdateRequest, Database, found, failure, Codec, hit, miss, db_unavailable,
  cache_key, db_to_api_product, fetch, get_product, update_product,
}

get-remove :
    {p : EvictionPolicy} (c : InMemoryCache p) (k : Str) (t : Time)
    → (Cache.get (Cache.remove c k) k t t).1 ≡ none
unfolding Cache.get Cache.remove
get-remove c k t = ground (arith, lookup-delete k k c.entries)

module _ (db : Database) (codec : Codec) where
  -- A read that misses while the database fails says so, and leaves in the cache what the lookup
  -- left there.
  pub get_product_failure :
      (cache : SharedCache) (id : Str) (now : Time) (d : db.State) (s : cache.State)
      → (cache.get (cache_key id) now s).1 ≡ some none
      → db.get_product id d ≡ failure
      → get_product cache db codec id now d s ≡ ((cache.get (cache_key id) now s).0, db_unavailable)
  unfolding get_product fetch
  get_product_failure cache id now d s nothing down = rw (nothing, get_product, down, fetch) refl

  module _ {p : EvictionPolicy} (l : Laws p) where
    -- Write-through: for 300 seconds after an update that the database has accepted and the codec
    -- can write, a read of the product over a valid in-memory cache hits and returns the product
    -- as it was updated.
    pub get_product-update_product :
        (id : Str) (req : ProductUpdateRequest) (now later : Time) (d d' : db.State)
        (c : InMemoryCache p) (later_deletions : List Str) {row : DbProduct} {value : Str}
        → IsValid l c
        → db.update_product id req d ≡ (d', found row)
        → codec.marshal (db_to_api_product row) ≡ some value
        → later ≤ now + 300 * second
        → (get_product
            (in_memory p)
            db
            codec
            id
            later
            d'
            (update_product
              (in_memory p)
              db
              codec
              write_through
              id
              req
              now
              d
              (record { state = c; deletions = later_deletions })).1.state).1
          ≡ hit (db_to_api_product row)
    unfolding get_product update_product on_write Cache.set
    get_product-update_product id req now later d d' c ds {row} {value} v updated written fresh =
        let cached =
          get-set l c (cache_key id) value write_through_ttl now later later v refl
            (ground arith) in
        rw
          (updated, update_product, written, cached, get_product, codec.unmarshal-marshal _ written)
          refl

  -- Write-behind: once the background deletion has run, a read goes to the database and returns
  -- what the database then holds.
  pub get_product-delete_later :
      {p : EvictionPolicy} (id : Str) (now later : Time) (d : db.State) (s : Pending (in_memory p))
      {row : DbProduct}
      → db.get_product id d ≡ found row
      → (get_product
          (in_memory p)
          db
          codec
          id
          later
          d
          (delete_later (in_memory p) (cache_key id) now s).state).1
        ≡ miss (db_to_api_product row)
  unfolding get_product fetch delete_later
  get_product-delete_later {p} id now later d s {row} holds =
      rw (get-remove s.state (cache_key id) later, get_product, holds, fetch) refl
