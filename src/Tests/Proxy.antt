-- ===== src/Tests/Proxy.antt =====
-- internal/proxy: requests for one product.
use distributed_caching.Prelude.{
  ◌≡◌, ◌+◌, ◌^◌, ◌-◌, refl, true, false, none, [], ◌∷◌, Str, Str-discrete, str_key, codes, Time,
  seconds, second, int64, arith,
}
use distributed_caching.Prelude.Dict.{lookup, insert, delete}
use distributed_caching.Proxy.CacheControl.{
  parse_cache_control, find_max_age, atoi, digits_value, split_commas, trim_left, trim_right,
  to_lower, has_prefix, drop_prefix, has_substring,
}
use distributed_caching.Proxy.Store.{ResponseStore, has_expired, CachedHttpResponse}
use distributed_caching.Proxy.Store
use distributed_caching.Proxy.{
  Request, Response, Upstream, unreachable, answered, Readings, unavailable, serve_cached,
  keep_response, forward, serve_http, copy_headers,
}
use distributed_caching.Proxy.Serving.{serve_unreachable, serve_not_kept, serve_twice}

program : Unit {0}
unfolding Str-discrete lookup insert delete parse_cache_control find_max_age atoi digits_value
    split_commas trim_left trim_right to_lower has_prefix drop_prefix has_substring has_expired
    Store.get Store.set keep_response forward serve_http copy_headers serve_cached
program = tt

max_age : parse_cache_control (codes "public, Max-Age= 60") ≡ (true, seconds 60)
unfolding program
max_age = refl

max_age_0 : parse_cache_control (codes "max-age=0") ≡ (false, int64 0)
unfolding program
max_age_0 = refl

forbidden : parse_cache_control (codes "max-age=60, No-Store") ≡ (false, int64 0)
unfolding program
forbidden = refl

not_a_number : parse_cache_control (codes "max-age=soon") ≡ (true, seconds 300)
unfolding program
not_a_number = refl

-- A negative age is taken for one that may be cached.
negative_age : parse_cache_control (codes "max-age=-1") ≡ (true, 2 ^ 63 - second)
unfolding program
negative_age = refl

abbrev uri : Str
uri = codes "/p/1"

abbrev get_request : Request
get_request = record { method = codes "GET"; uri = uri }

abbrev at : Time → Readings
at t = record {
  checked = t;
  locked = t + 1;
  rechecked = t + 2;
  relocked = t + 3;
  cached_at = t + 4;
  expires_from = t + 5;
}

abbrev page : Response
page = record {
  status = 200;
  headers = (codes "Cache-Control", codes "max-age=60" ∷ []) ∷ [];
  body = codes "one";
}

abbrev missing : Response
missing = record { status = 404; headers = []; body = codes "none" }

abbrev up : Request → Upstream
up r = answered page

serve_twice_example :
    (let again =
        serve_http
          (λ r. unreachable)
          (at 60_000_000_105)
          (record { method = codes "HEAD"; uri = uri })
          (serve_http up (at 100) get_request []).0 in
      (again.2 ≡ false) × (again.1.status ≡ 200) × (again.1.body ≡ codes "one"))
unfolding program
serve_twice_example =
    serve_twice up (λ r. unreachable) (at 100) (at 60_000_000_105) get_request (codes "HEAD") []
      (seconds 60) refl refl refl (omega arith) (omega arith) (omega arith) (omega arith)

abbrev stored : ResponseStore
stored = (serve_http up (at 100) get_request []).0

-- The response has expired, and the upstream is gone.
serve_unreachable_example :
    ((serve_http (λ r. unreachable) (at 70_000_000_000) get_request stored).1 ≡ unavailable)
    × ((serve_http (λ r. unreachable) (at 70_000_000_000) get_request stored).2 ≡ true)
unfolding program
serve_unreachable_example =
    serve_unreachable (λ r. unreachable) (at 70_000_000_000) get_request stored (omega arith) refl
      refl

abbrev held : CachedHttpResponse
held = record {
  status_code = 200;
  headers = page.headers;
  body = codes "one";
  cached_at = 104;
  expires_at = 60_000_000_105;
}

serve_not_kept_example :
    lookup uri (serve_http (λ r. answered missing) (at 100) get_request []).0 ≡ none
unfolding program
serve_not_kept_example =
    serve_not_kept (λ r. answered missing) (at 100) get_request [] (omega arith) refl refl refl
