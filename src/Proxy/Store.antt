-- ===== src/Proxy/Store.antt =====
-- internal/proxy/store.go: the store of responses. Each method is one step.
use distributed_caching.Prelude.{
  ℕ, ◌≡◌, ◌≤◌, Bool, Option, none, some, List, [], if◌then◌else◌, Str, str_key, Time, past, arith,
  length,
}
use distributed_caching.Prelude.Dict.{Dict, lookup, insert, delete, lookup-delete}

pub record CachedHttpResponse : Type 0 where
  pub status_code : ℕ
  pub headers : Dict Str (List Str)
  pub body : Str
  pub cached_at : Time
  pub expires_at : Time

unfoldable pub has_expired : CachedHttpResponse → Time → Bool
has_expired r now = past r.expires_at now

abbrev pub ResponseStore : Type 0
ResponseStore = Dict Str CachedHttpResponse

-- `NewResponseStore`
abbrev pub new_response_store : ResponseStore
new_response_store = []

-- `Get` reads the clock when it tests the entry, and again under the write lock.
unfoldable pub get : Str → Time → Time → ResponseStore → ResponseStore × Option CachedHttpResponse
get url_key checked locked s = elim (lookup url_key s) [
  | none ↦ (s, none)
  | some entry ↦
      if has_expired entry checked
      then (if has_expired entry locked then delete url_key s else s, none)
      else (s, some entry)
]

unfoldable pub set : Str → CachedHttpResponse → ResponseStore → ResponseStore
set url_key resp s = insert url_key resp s

unfoldable pub remove : Str → ResponseStore → ResponseStore
remove url_key s = delete url_key s

unfoldable pub len : ResponseStore → ℕ
len s = length s

-- A clock that does not run backwards leaves nothing to find after a miss.
pub get-miss :
    (key : Str) (checked locked : Time) (s : ResponseStore)
    → checked ≤ locked
    → (get key checked locked s).1 ≡ none
    → lookup key (get key checked locked s).0 ≡ none
unfolding get has_expired
get-miss key checked locked s le miss = ground (arith, lookup-delete key key s)
