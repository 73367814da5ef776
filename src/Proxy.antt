-- ===== src/Proxy.antt =====
-- internal/proxy: the reverse proxy (proxy.go) and its store of responses (store.go). The upstream
-- service and the HTTP library are not part of the model: what a request to the upstream leads to is
-- an argument of the handler. Requests are served one after the other: no other request comes
-- between the two readings of the store in one call of the handler.
pub mod CacheControl
pub mod Store
pub mod Serving
use distributed_caching.Prelude.{
  ℕ, ◌≡◌, Bool, true, false, not, ◌&&◌, Option, none, some, List, [], ◌∷◌, ◌++◌, if◌then◌else◌,
  ◌==◌, ltb, leb, Str, str_key, codes, Time, Duration, int64, add_duration,
}
use distributed_caching.Prelude.Dict.{Dict, lookup, insert}
use distributed_caching.Proxy.CacheControl.{parse_cache_control}
use distributed_caching.Proxy.Store.{CachedHttpResponse, ResponseStore}
use distributed_caching.Proxy.Store

-- `http.Header`
abbrev pub Header : Type 0
Header = Dict Str (List Str)

abbrev pub values_of : Option (List Str) → List Str
values_of none = []
values_of (some vs) = vs

-- `dst.Add(key, v)` for every value of one key.
abbrev pub add_values : Str → List Str → Header → Header
add_values key [] dst = dst
add_values key (v ∷ vs) dst =
    add_values key vs (insert key (values_of (lookup key dst) ++ v ∷ []) dst)

-- `copyHeaders`
unfoldable pub copy_headers : Header → Header → Header
copy_headers dst [] = dst
copy_headers dst ((key, values) ∷ src) = copy_headers (add_values key values dst) src

pub record Request : Type 0 where
  pub method : Str
  pub uri : Str

-- What is written to the client, and what the upstream answers.
pub record Response : Type 0 where
  pub status : ℕ
  pub headers : Header
  pub body : Str

pub data Upstream : Type 0 where
  unreachable : Upstream
  unreadable : Upstream  -- the body breaks off
  answered : Response → Upstream

-- The readings of the clock that one request makes, in their order.
pub record Readings : Type 0 where
  pub checked : Time
  pub locked : Time
  pub rechecked : Time
  pub relocked : Time
  pub cached_at : Time
  pub expires_from : Time

-- `http.Error`
abbrev pub error_response : ℕ → Str → Response
error_response status message = record {
  status = status;
  headers =
      (codes "Content-Type", codes "text/plain; charset=utf-8" ∷ [])
      ∷ (codes "X-Content-Type-Options", codes "nosniff" ∷ [])
      ∷ [];
  body = message ++ 10 ∷ [];
}

abbrev pub unavailable : Response
unavailable = error_response 503 (codes "upstream unavailable and no cached response available")

-- `serveCached`
unfoldable pub serve_cached : CachedHttpResponse → Response
serve_cached cached = record {
  status = cached.status_code;
  headers = insert (codes "X-Proxy-Cache") (codes "HIT" ∷ []) (copy_headers [] cached.headers);
  body = cached.body;
}

-- The part of `ServeHTTP` that stores a response.
unfoldable pub keep_response : Readings → Str → Response → ResponseStore → ResponseStore
keep_response now cache_key r s =
    let (should_cache, ttl) =
      parse_cache_control
        (elim (values_of (lookup (codes "Cache-Control") r.headers)) [ [] ↦ [] | v ∷ vs ↦ v ]) in
    if should_cache && leb 200 r.status && ltb r.status 300
    then Store.set cache_key
        (record {
          status_code = r.status;
          headers = r.headers;
          body = r.body;
          cached_at = now.cached_at;
          expires_at = if ltb (int64 0) ttl then add_duration now.expires_from ttl else 0;
        })
        s
    else s

-- The part of `ServeHTTP` after a miss.
unfoldable pub forward : Readings → Str → Upstream → ResponseStore → ResponseStore × Response
forward now cache_key unreachable s =
    let (s', stale) = Store.get cache_key now.rechecked now.relocked s in
    (s', elim stale [ none ↦ unavailable | some cached ↦ serve_cached cached ])
forward now cache_key unreadable s =
    (s, error_response 502 (codes "failed to read upstream response"))
forward now cache_key (answered r) s =
    (keep_response now cache_key r s, record r { headers = copy_headers [] r.headers })

-- `ServeHTTP`: the third result says whether the request was sent on.
unfoldable pub serve_http :
    (Request → Upstream) → Readings → Request → ResponseStore → ResponseStore × Response × Bool
serve_http upstream now r s =
    let (s', hit) = Store.get r.uri now.checked now.locked s in
    elim hit [
      | none ↦ let (s'', resp) = forward now r.uri (upstream r) s' in (s'', resp, true)
      | some cached ↦ (s', serve_cached cached, false)
    ]
