-- ===== src/Api/Handlers/Reading.antt =====
-- internal/api/handler.go: what GET and PUT of a product answer.
use distributed_caching.Prelude.{
  ◌+◌, ◌*◌, ◌≤◌, ◌≡◌, ◌∙◌, ap, sym, ◌⊎◌, inl, inr, refl, true, some, List, [], Str, str_key,
  Str-discrete, same, Time, codes, arith, second, Option-cases,
}
use distributed_caching.Prelude.Dict.{lookup, insert}
use distributed_caching.Policy.{EvictionPolicy, Laws}
use distributed_caching.Cache.{InMemoryCache}
use distributed_caching.Cache.Valid.{IsValid}
use distributed_caching.Api.{
  Product, DbProduct, ProductUpdateRequest, Database, DbResult, found, not_found, failure, Codec,
  Answer, hit, miss, product_not_found, db_unavailable, Updated, updated, update_not_found,
  update_failed, db_to_api_product, fetch, cache_key,
}
use distributed_caching.Api
use distributed_caching.Api.Invalidation.{SharedCache, Strategy, write_through, Pending, in_memory}
use distributed_caching.Api.Consistency.{get_product-update_product}
use distributed_caching.Api.Handlers.{
  HttpResponse, product_body, Decoded, decoded, bad_body, Decoders, write_json, write_error,
  write_product, respond_get, respond_update, x_cache_header, hit_status, miss_status, handle_get,
  handle_update,
}
use distributed_caching.Database.{Postgres, database}
use distributed_caching.Database as Db

same_self : (s : Str) → same s s ≡ true
same_self s = ground arith

-- The header that was set is read back, so that the product is served.
write_product-served :
    (p : Product) (s : Str)
    → ((write_product p s).status ≡ 200)
      × (lookup x_cache_header (write_product p s).header ≡ some s)
      × ((write_product p s).body ≡ product_body p)
unfolding write_product write_json lookup insert Str-discrete
write_product-served p s = rw (same_self s) (refl, refl, refl)

-- The status 200, and the header X-Cache with HIT or MISS.
abbrev IsServed : HttpResponse → Type 0
IsServed r =
    (r.status ≡ 200)
    × ((lookup x_cache_header r.header ≡ some (codes "HIT"))
        ⊎ (lookup x_cache_header r.header ≡ some (codes "MISS")))

respond_get_cases :
    (a : Answer) → IsServed (respond_get a) ⊎ (a ≡ product_not_found) ⊎ (a ≡ db_unavailable)
unfolding respond_get
respond_get_cases (hit p) = let w = write_product-served p hit_status in inl (w.0, inl w.1)
respond_get_cases (miss p) = let w = write_product-served p miss_status in inl (w.0, inr w.1)
respond_get_cases product_not_found = inr (inl refl)
respond_get_cases db_unavailable = inr (inr refl)

status_404 : (respond_get product_not_found).status ≡ 404
unfolding respond_get write_error write_json
status_404 = refl

status_503 : (respond_get db_unavailable).status ≡ 503
unfolding respond_get write_error write_json
status_503 = refl

module _ (db : Database) (codec : Codec) (cache : SharedCache) where
  fetch_errors :
      (id : Str) (now : Time) (d : db.State) (s : cache.State)
      → ((fetch cache db codec id now d s).1 ≡ product_not_found → db.get_product id d ≡ not_found)
        × ((fetch cache db codec id now d s).1 ≡ db_unavailable → db.get_product id d ≡ failure)
  unfolding fetch
  fetch_errors id now d s = (λ e. ground arith, λ e. ground arith)

  -- A read hits, or it comes to the part after a miss.
  get_product_cases :
      (id : Str) (now : Time) (d : db.State) (s : cache.State)
      → let r = Api.get_product cache db codec id now d s in
        ((p : Product) × (r.1 ≡ hit p))
        ⊎ ((s' : cache.State) × (r ≡ fetch cache db codec id now d s'))
  unfolding Api.get_product
  get_product_cases id now d s =
      let s1 = (cache.get (cache_key id) now s).0 in
      elim (Option-cases (cache.get (cache_key id) now s).1) [
        | inl e ↦ inr (s1, rw (e, Api.get_product) refl)
        | inr (o, e) ↦ elim (Option-cases o) [
          | inl n ↦ inr (s1, rw (e, n, Api.get_product) refl)
          | inr (v, n) ↦ elim (Option-cases (codec.unmarshal v)) [
            | inl bad ↦
                inr ((cache.delete (cache_key id) now s1).0, rw (e, n, bad, Api.get_product) refl)
            | inr (p, good) ↦ inl (p, rw (e, n, good, Api.get_product) refl)
          ]
        ]
      ]

  -- An error of a read is one of the database.
  get_product_errors :
      (id : Str) (now : Time) (d : db.State) (s : cache.State)
      → ((Api.get_product cache db codec id now d s).1 ≡ product_not_found
          → db.get_product id d ≡ not_found)
        × ((Api.get_product cache db codec id now d s).1 ≡ db_unavailable
            → db.get_product id d ≡ failure)
  get_product_errors id now d s = elim (get_product_cases id now d s) [
    | inl (p, e) ↦ (λ q. absurd (ground arith), λ q. absurd (ground arith))
    | inr (s', e) ↦
        let f = fetch_errors id now d s' in
        (λ q. f.0 (ap (λ r. r.1) (sym e) ∙ q), λ q. f.1 (ap (λ r. r.1) (sym e) ∙ q))
  ]

module _ (cache : SharedCache) (server : Postgres) (codec : Codec) (decoders : Decoders) where
  -- GET answers 200 with the header X-Cache, which is HIT or MISS, or 404 when the database has no
  -- such product, or 503 when the database fails, and nothing else: the 500 of the handler does not
  -- occur.
  pub handle_get_cases :
      (id : Str) (now : Time) (d : server.State) (s : cache.State)
      → let r = (handle_get cache server codec decoders id now d s).1 in
        ((r.status ≡ 200)
          × ((lookup x_cache_header r.header ≡ some (codes "HIT"))
              ⊎ (lookup x_cache_header r.header ≡ some (codes "MISS"))))
        ⊎ ((r.status ≡ 404) × (Db.get_product server id d ≡ not_found))
        ⊎ ((r.status ≡ 503) × (Db.get_product server id d ≡ failure))
  unfolding handle_get
  handle_get_cases id now d s =
      let a = (Api.get_product cache (database server) codec id now d s).1 in
      let errors = get_product_errors (database server) codec cache id now d s in
      elim (respond_get_cases a) [
        | inl ok ↦ inl ok
        | inr (inl e) ↦ inr (inl (ap (λ x. (respond_get x).status) e ∙ status_404, errors.0 e))
        | inr (inr e) ↦ inr (inr (ap (λ x. (respond_get x).status) e ∙ status_503, errors.1 e))
      ]

Decoded-cases :
    {A : Type 0} (d : Decoded A) → ((a : A) × (d ≡ decoded a)) ⊎ ((e : Str) × (d ≡ bad_body e))
Decoded-cases (decoded a) = inl (a, refl)
Decoded-cases (bad_body e) = inr (e, refl)

DbResult-cases :
    (r : DbResult) → ((row : DbProduct) × (r ≡ found row)) ⊎ (r ≡ not_found) ⊎ (r ≡ failure)
DbResult-cases (found row) = inl (row, refl)
DbResult-cases not_found = inr (inl refl)
DbResult-cases failure = inr (inr refl)

-- A PUT that answers with a product has had its body decoded and its update done.
handle_update-product :
    (cache : SharedCache) (server : Postgres) (codec : Codec) (decoders : Decoders)
    (strategy : Strategy) (id body : Str) (now : Time) (d : server.State) (s : Pending cache)
    {p : Product}
    → (handle_update cache server codec decoders strategy id body now d s).2.body ≡ product_body p
    → (req : ProductUpdateRequest) × (row : DbProduct) × (handle_update cache server codec decoders
          strategy id body now d s
        ≡ (
          (Db.update_product server id req d).0,
          (Api.update_product cache (database server) codec strategy id req now d s).1,
          write_json [] 200 (product_body p),
        ))
      × (Db.update_product server id req d ≡ ((Db.update_product server id req d).0, found row))
      × (db_to_api_product row ≡ p)
unfolding handle_update respond_update write_error write_json Api.update_product
handle_update-product cache server codec decoders strategy id body now d s {p} e =
    elim (Decoded-cases (decoders.decode_update body)) [
      | inr (t, bad) ↦ absurd (ground arith)
      | inl (req, good) ↦ elim (DbResult-cases (Db.update_product server id req d).1) [
        | inl (row, there) ↦
            let same_product : db_to_api_product row ≡ p = ground arith in
            (req, row, ground arith, ground arith, same_product)
        | inr (inl gone) ↦ absurd (ground arith)
        | inr (inr down) ↦ absurd (ground arith)
      ]
    ]

module _ (server : Postgres) (codec : Codec) (decoders : Decoders) {policy : EvictionPolicy}
    (l : Laws policy) where
  -- Under write-through and a valid in-memory cache: after a PUT that answers with a product which
  -- the codec can write, a GET of it within 300 seconds answers 200 with `X-Cache: HIT` and that
  -- product.
  pub handle_get-handle_update :
      (id body : Str) (now later : Time) (d : server.State) (c : InMemoryCache policy)
      (later_deletions : List Str) {p : Product} {value : Str}
      → IsValid l c
      → let put =
          handle_update
            (in_memory policy)
            server
            codec
            decoders
            write_through
            id
            body
            now
            d
            (record { state = c; deletions = later_deletions }) in
        put.2.body ≡ product_body p
        → codec.marshal p ≡ some value
        → later ≤ now + 300 * second
        → let got =
            (handle_get (in_memory policy) server codec decoders id later put.0 put.1.state).1 in
          (got.status ≡ 200)
          × (lookup x_cache_header got.header ≡ some hit_status)
          × (got.body ≡ product_body p)
  unfolding handle_get respond_get
  handle_get-handle_update id body now later d c ds {p} {value} v answered written soon =
      let (req, row, whole, stored, same_product) =
        handle_update-product (in_memory policy) server codec decoders write_through id body now d
          (record { state = c; deletions = ds }) answered in
      let hits =
        get_product-update_product (database server) codec l id req now later d _ c ds v stored
          (ap codec.marshal same_product ∙ written) soon in
      rw (whole, hits ∙ ap hit same_product) (write_product-served p hit_status)
