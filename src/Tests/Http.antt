-- ===== src/Tests/Http.antt =====
-- internal/api/handler.go over internal/db/postgres.go, with a server of one row that reads the
-- statements that it is sent.
use distributed_caching.Prelude.{
  ◌-◌, ◌*◌, ◌≡◌, ◌≤◌, ◌<◌, ◌⊎◌, refl, false, none, some, List, [], ◌∷◌, Str, Str-discrete, str_key,
  codes, length, same, arith, if◌then◌else◌, int64,
}
use distributed_caching.Prelude.Dict.{lookup}
use distributed_caching.Eviction.Lru.{lru_policy}
use distributed_caching.Eviction.Lru.Shape.{lru_laws, lru_cache, lru_cache-IsValid}
use distributed_caching.Cluster.Hash.{digits}
use distributed_caching.Config.{nat_of}
use distributed_caching.Proxy.CacheControl.{atoi, digits_value, split_commas, trim_left, trim_right}
use distributed_caching.Api.{
  DbProduct, Product, ProductUpdateRequest, not_found, failure, db_to_api_product,
}
use distributed_caching.Api
use distributed_caching.Api.Invalidation.{in_memory, write_through}
use distributed_caching.Database.{
  Postgres, SqlArg, text, RowResult, row, no_rows, row_error, get_text, set_statement, add_clause,
  join_clauses, join_loop, offset_of,
}
use distributed_caching.Database as Db
use distributed_caching.Database.Update.{before_byte, run_set}
use distributed_caching.Api.Handlers.{
  Decoders, decoded, bad_body, product_body, x_cache_header, hit_status, handle_get, handle_update,
  page_of, page_size_of, query_int, respond_update, write_json,
}
use distributed_caching.Api.Handlers.Reading.{handle_get_cases, handle_get-handle_update}
use distributed_caching.Api.Handlers.Paging.{offset_of-pages}
use distributed_caching.Tests.Api.{codec, request, drop}
use distributed_caching.Tests.Api as One

-- What that statement looks like.
request_clauses :
    join_clauses (set_statement request).set_clauses
    ≡ codes "updated_at = NOW(), description = $1, price_usd = $2"
unfolding set_statement add_clause join_clauses join_loop digits
request_clauses = refl

-- A SELECT has one argument, the id; an UPDATE of at least one field has more.
abbrev answer : Str → List SqlArg → DbProduct → DbProduct × RowResult
answer sql (text id ∷ []) d = (d, if same id d.id then row d else no_rows)
answer sql args d =
    let set = drop (length (codes "\n\t\tUPDATE products\n\t\tSET ")) sql in
    elim (run_set (before_byte b'\n' set) args 1000 d) [
      | none ↦ (d, row_error (codes "syntax error"))
      | some d' ↦ (d', row d')
    ]

abbrev server : Postgres
server = record {
  State = DbProduct;
  query_row = answer;
  count_row = λ sql d. some (int64 1);
  query = λ sql args d. some (record { scanned = some d ∷ []; failed = false });
}

abbrev decoders : Decoders
decoders = record {
  decode_product = λ body. bad_body body;
  decode_update = λ body. decoded request;
}

handle_get_cases_example :
    let r =
      (handle_get
        (in_memory lru_policy)
        server
        codec
        decoders
        (codes "p2")
        1000
        One.row
        (lru_cache 2)).1 in
    ((r.status ≡ 200)
      × ((lookup x_cache_header r.header ≡ some (codes "HIT"))
          ⊎ (lookup x_cache_header r.header ≡ some (codes "MISS"))))
    ⊎ ((r.status ≡ 404) × (Db.get_product server (codes "p2") One.row ≡ not_found))
    ⊎ ((r.status ≡ 503) × (Db.get_product server (codes "p2") One.row ≡ failure))
handle_get_cases_example =
    handle_get_cases (in_memory lru_policy) server codec decoders (codes "p2") 1000 One.row
      (lru_cache 2)

handle_get-handle_update_example :
    let put =
      handle_update
        (in_memory lru_policy)
        server
        codec
        decoders
        write_through
        One.row.id
        []
        1000
        One.row
        (record { state = lru_cache 2; deletions = [] }) in
    let got =
      (handle_get
        (in_memory lru_policy)
        server
        codec
        decoders
        One.row.id
        5000
        put.0
        put.1.state).1 in
    (got.status ≡ 200)
    × (lookup x_cache_header got.header ≡ some hit_status)
    × (got.body ≡ product_body (db_to_api_product (record One.new_row { updated_at = 1000 })))
unfolding handle_update respond_update write_json Api.update_product Db.update_product set_statement
    add_clause join_clauses join_loop digits digits_value split_commas trim_left trim_right
    Str-discrete
handle_get-handle_update_example =
    handle_get-handle_update server codec decoders lru_laws One.row.id [] 1000 5000 One.row
      (lru_cache 2) [] (lru_cache-IsValid 2 (omega arith)) refl refl (omega arith)

offset_of-pages_example :
    let page = page_of (codes "3") in
    let size = page_size_of (codes "500") in
    (1 ≤ nat_of size)
    × (nat_of size ≤ 100)
    × (1 ≤ nat_of page)
    × (offset_of page size ≡ int64 ((nat_of page - 1) * nat_of size))
unfolding page_of query_int atoi digits_value Str-discrete
offset_of-pages_example = offset_of-pages (codes "3") (codes "500") (omega arith)

-- One page beyond that limit the offset has overflowed: it is negative.
offset_overflows : offset_of (int64 92_233_720_368_547_760) (int64 100) < int64 0
offset_overflows = omega arith
