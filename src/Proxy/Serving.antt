-- ===== src/Proxy/Serving.antt =====
-- internal/proxy/proxy.go: what a request to the proxy is answered with.
use distributed_caching.Prelude.{
  ◌≡◌, ◌≤◌, ◌<◌, refl, true, false, ◌&&◌, none, some, [], ◌∷◌, ltb, leb, Str, str_key, codes, Time,
  Duration, int64, add_duration, arith,
}
use distributed_caching.Prelude.Dict.{lookup, lookup-insert}
use distributed_caching.Proxy.CacheControl.{parse_cache_control}
use distributed_caching.Proxy.Store.{CachedHttpResponse, ResponseStore, has_expired, get-miss}
use distributed_caching.Proxy.Store
use distributed_caching.Proxy.{
  values_of, Request, Response, Upstream, unreachable, answered, Readings, unavailable,
  serve_cached, keep_response, forward, serve_http,
}

get_absent :
    (key : Str) (t u : Time) (s : ResponseStore)
    → lookup key s ≡ none
    → Store.get key t u s ≡ (s, none)
unfolding Store.get
get_absent key t u s h = rw (h, Store.get) refl

-- A request that misses while the upstream is unreachable is answered with 503 on a clock that does
-- not run backwards: no stale response is ever served.
pub serve_unreachable :
    (upstream : Request → Upstream) (now : Readings) (r : Request) (s : ResponseStore)
    → now.checked ≤ now.locked
    → (Store.get r.uri now.checked now.locked s).1 ≡ none
    → upstream r ≡ unreachable
    → ((serve_http upstream now r s).1 ≡ unavailable) × ((serve_http upstream now r s).2 ≡ true)
unfolding serve_http forward
serve_unreachable upstream now r s le miss down =
    let gone = get-miss r.uri now.checked now.locked s le miss in
    rw (miss, down, serve_http, forward)
      (ground (arith, get_absent r.uri now.rechecked now.relocked _ gone), refl)

-- A request whose URI has an unexpired response is answered from the store and is not sent on.
serve_any_method :
    (upstream : Request → Upstream) (now : Readings) (method uri : Str) (s : ResponseStore)
    {cached : CachedHttpResponse}
    → lookup uri s ≡ some cached
    → has_expired cached now.checked ≡ false
    → serve_http upstream now (record { method = method; uri = uri }) s
      ≡ (s, serve_cached cached, false)
unfolding serve_http Store.get
serve_any_method upstream now method uri s found live = ground arith

-- The Cache-Control value that the proxy reads.
abbrev pub cache_control : Response → Str
cache_control r = elim (values_of (lookup (codes "Cache-Control") r.headers)) [
  | [] ↦ []
  | v ∷ vs ↦ v
]

-- After a miss, on a clock that does not run backwards, an answer of the upstream that its header
-- or a status other than 2xx bars from the store leaves the store without a response for the URI.
pub serve_not_kept :
    (upstream : Request → Upstream) (now : Readings) (r : Request) (s : ResponseStore)
    {a : Response}
    → now.checked ≤ now.locked
    → (Store.get r.uri now.checked now.locked s).1 ≡ none
    → upstream r ≡ answered a
    → ((parse_cache_control (cache_control a)).0 && leb 200 a.status && ltb a.status 300) ≡ false
    → lookup r.uri (serve_http upstream now r s).0 ≡ none
unfolding serve_http forward keep_response
serve_not_kept upstream now r s {a} le miss up refused =
    let gone = get-miss r.uri now.checked now.locked s le miss in
    rw (miss, up, serve_http, forward) (ground arith)

-- What is stored for a response with a positive time to live.
abbrev kept : Readings → Duration → Response → CachedHttpResponse
kept now ttl a = record {
  status_code = a.status;
  headers = a.headers;
  body = a.body;
  cached_at = now.cached_at;
  expires_at = add_duration now.expires_from ttl;
}

keep_response-kept :
    (now : Readings) (uri : Str) (a : Response) (s : ResponseStore) (ttl : Duration)
    → parse_cache_control (cache_control a) ≡ (true, ttl)
    → int64 0 < ttl
    → 200 ≤ a.status
    → a.status < 300
    → lookup uri (keep_response now uri a s) ≡ some (kept now ttl a)
unfolding keep_response Store.set
keep_response-kept now uri a s ttl may positive low high =
    let ok : (leb 200 a.status && ltb a.status 300) ≡ true = ground arith in
    let long : ltb (int64 0) ttl ≡ true = ground arith in
    rw (may, keep_response, ok, long) (ground (arith, lookup-insert uri uri (kept now ttl a) s))

-- After a miss whose answer may be kept for a positive time, a request of the same URI before that
-- time has passed is answered from the store with the same status and body, and is not sent on.
pub serve_twice :
    (upstream upstream' : Request → Upstream) (now later : Readings) (r : Request) (method : Str)
    (s : ResponseStore) (ttl : Duration) {a : Response}
    → (Store.get r.uri now.checked now.locked s).1 ≡ none
    → upstream r ≡ answered a
    → parse_cache_control (cache_control a) ≡ (true, ttl)
    → int64 0 < ttl
    → 200 ≤ a.status
    → a.status < 300
    → later.checked ≤ add_duration now.expires_from ttl
    → (let second =
          serve_http upstream' later
            (record { method = method; uri = r.uri })
            (serve_http upstream now r s).0 in
        (second.2 ≡ false) × (second.1.status ≡ a.status) × (second.1.body ≡ a.body))
unfolding serve_http forward has_expired serve_cached
serve_twice upstream upstream' now later r method s ttl {a} miss up may positive low high fresh =
    let here =
      keep_response-kept now r.uri a (Store.get r.uri now.checked now.locked s).0 ttl may positive
        low high in
    let held : lookup r.uri (serve_http upstream now r s).0 ≡ some (kept now ttl a) =
      rw (miss, up, serve_http, forward) here in
    rw (serve_any_method upstream' later method r.uri _ held (ground arith)) (refl, refl, refl)
