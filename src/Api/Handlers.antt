-- ===== src/Api/Handlers.antt =====
-- internal/api/handler.go: the handlers of the products, from the parts of a request to a response.
-- The router, the parsing of the query string and the JSON of the bodies belong to the standard
-- library: a request comes as its path value, its query values and its body, and the decoders are
-- parameters.
pub mod Paging
pub mod Reading
use distributed_caching.Prelude.{
  Bool, true, false, Option, none, some, List, [], ◌∷◌, ◌++◌, map, if◌then◌else◌, ltb, ℕ, Str,
  str_key, codes, same, Time, Int64, int64,
}
use distributed_caching.Prelude.Dict.{Dict, lookup, insert}
use distributed_caching.Api.{
  Product, ProductUpdateRequest, DbProduct, Codec, Answer, hit, miss, product_not_found,
  db_unavailable, Updated, updated, update_not_found, update_failed, db_to_api_product,
}
use distributed_caching.Api
use distributed_caching.Api.Invalidation.{SharedCache, Strategy, Pending}
use distributed_caching.Database.{
  Postgres, database, create_product, list_products, Created, created, create_error, Listed, listed,
  list_error,
}
use distributed_caching.Proxy.CacheControl.{atoi, has_substring}

pub data Body : Type 0 where
  error_body : Str → Body
  product_body : Product → Body
  list_body : (products : List Product) (page page_size total_count : Int64) → Body

pub record HttpResponse : Type 0 where
  pub status : ℕ
  pub header : Dict Str Str
  pub body : Body

-- What `Decode` leaves: a value, or the text of an error.
pub data Decoded (A : Type 0) : Type 0 where
  decoded : A → Decoded A
  bad_body : Str → Decoded A

pub record Decoders : Type 0 where
  pub decode_product : Str → Decoded Product
  pub decode_update : Str → Decoded ProductUpdateRequest

abbrev content_type : Dict Str Str → Dict Str Str
content_type header = insert (codes "Content-Type") (codes "application/json") header

-- `writeJSON`, for the headers that are set already
unfoldable pub write_json : Dict Str Str → ℕ → Body → HttpResponse
write_json header status body = record {
  status = status;
  header = content_type header;
  body = body;
}

unfoldable pub write_error : Dict Str Str → ℕ → Str → HttpResponse
write_error header status msg = write_json header status (error_body msg)

abbrev pub x_cache_header : Str
x_cache_header = codes "X-Cache"

abbrev pub hit_status : Str
hit_status = codes "HIT"

abbrev pub miss_status : Str
miss_status = codes "MISS"

abbrev pub unavailable_text : Str
unavailable_text = codes "service temporarily unavailable"

abbrev pub header_value : Option Str → Str
header_value none = []
header_value (some v) = v

-- The end of `GetProduct`: the header is set and read back.
unfoldable pub write_product : Product → Str → HttpResponse
write_product p cache_status =
    let header = insert x_cache_header cache_status [] in
    if same (header_value (lookup x_cache_header header)) cache_status
    then write_json header 200 (product_body p)
    else write_error header 500 (codes "failed to set cache status header")

unfoldable pub respond_get : Answer → HttpResponse
respond_get (hit p) = write_product p hit_status
respond_get (miss p) = write_product p miss_status
respond_get product_not_found = write_error [] 404 (codes "product not found")
respond_get db_unavailable = write_error [] 503 unavailable_text

unfoldable pub respond_update : Updated → HttpResponse
respond_update (updated p) = write_json [] 200 (product_body p)
respond_update update_not_found = write_error [] 404 (codes "product not found")
respond_update update_failed = write_error [] 503 unavailable_text

-- `isUniqueViolation`, on the text of an error
abbrev pub is_unique_violation : Str → Bool
is_unique_violation e =
    if has_substring e (codes "23505") then true else has_substring e (codes "unique")

unfoldable pub respond_create : Created → HttpResponse
respond_create (created p) = write_json [] 201 (product_body (db_to_api_product p))
respond_create (create_error e) =
    if is_unique_violation e
    then write_error [] 409 (codes "product with this ID already exists")
    else write_error [] 503 unavailable_text

abbrev pub int_or : Int64 → Option Int64 → Int64
int_or default_val none = default_val
int_or default_val (some n) = n

-- `queryInt`, given the value of the parameter
unfoldable pub query_int : Str → Int64 → Int64
query_int s default_val = if same s [] then default_val else int_or default_val (atoi s)

-- The page and its size, from the values of `page` and `pageSize`.
unfoldable pub page_size_of : Str → Int64
page_size_of s =
    let size = query_int s (int64 20) in
    if ltb size (int64 1) then int64 1 else if ltb (int64 100) size then int64 100 else size

unfoldable pub page_of : Str → Int64
page_of s = let page = query_int s (int64 1) in if ltb page (int64 1) then int64 1 else page

unfoldable pub respond_list : Int64 → Int64 → Listed → HttpResponse
respond_list page page_size list_error = write_error [] 503 unavailable_text
respond_list page page_size (listed ps total) =
    write_json [] 200 (list_body (map db_to_api_product ps) page page_size total)

-- The row that `CreateProduct` asks for: the times are left zero.
abbrev pub row_of : Product → DbProduct
row_of p = record {
  id = p.id;
  name = p.name;
  description = p.description;
  price_usd = p.price_usd;
  category = p.category;
  created_at = 0;
  updated_at = 0;
}

module _ (cache : SharedCache) (server : Postgres) (codec : Codec) (decoders : Decoders) where
  unfoldable pub handle_get : Str → Time → server.State → cache.State → cache.State × HttpResponse
  handle_get id now d s =
      let (s', answer) = Api.get_product cache (database server) codec id now d s in
      (s', respond_get answer)

  unfoldable pub handle_list : Str → Str → server.State → HttpResponse
  handle_list page_value page_size_value d =
      let page = page_of page_value in
      let page_size = page_size_of page_size_value in
      respond_list page page_size (list_products server page page_size d)

  -- `CreateProduct` after the checks.
  unfoldable pub create_checked : Product → server.State → server.State × HttpResponse
  create_checked p d = let (d', r) = create_product server (row_of p) d in (d', respond_create r)

  unfoldable pub handle_create : Str → server.State → server.State × HttpResponse
  handle_create body d = elim (decoders.decode_product body) [
    | bad_body e ↦ (d, write_error [] 400 (codes "invalid request body: " ++ e))
    | decoded p ↦
        if (if same p.id [] then true else same p.name [])
        then (d, write_error [] 400 (codes "id and name are required"))
        else create_checked p d
  ]

  unfoldable pub handle_update :
      Strategy
      → Str
      → Str
      → Time
      → server.State
      → Pending cache
      → server.State × Pending cache × HttpResponse
  handle_update strategy id body now d s = elim (decoders.decode_update body) [
    | bad_body e ↦ (d, s, write_error [] 400 (codes "invalid request body: " ++ e))
    | decoded req ↦
        let (d', s', r) =
          Api.update_product cache (database server) codec strategy id req now d s in
        (d', s', respond_update r)
  ]
