-- ===== src/Eviction/Ttl.antt =====
-- internal/eviction/ttl.go: the policy that lets the entry go that expires first.
pub mod History
use distributed_caching.Prelude.{ℕ, Bool, Option, Str, codes, Time, ltb}
use distributed_caching.Policy.{EvictionPolicy}
use distributed_caching.Eviction.Indexed.{Indexed, new_indexed, insert_entry, drop_entry, first_key}

-- The payload of a ttlEntry is its `expiresAt`.
abbrev pub TtlOnly : Type 0
TtlOnly = Indexed Time

-- `Less`: `Before`
abbrev pub ttl_less : Time → Time → Bool
ttl_less = ltb

-- `NewTTLOnly`
unfoldable pub new_ttl_only : TtlOnly
new_ttl_only = new_indexed 0

unfoldable pub on_access : Str → TtlOnly → TtlOnly
on_access key t = t

unfoldable pub on_insert : Str → Time → TtlOnly → TtlOnly
on_insert key expires_at t = insert_entry ttl_less key expires_at t

unfoldable pub on_evict : Str → TtlOnly → TtlOnly
on_evict key t = drop_entry ttl_less key t

unfoldable pub evict : TtlOnly → Option Str
evict t = first_key t

unfoldable pub ttl_policy : EvictionPolicy
ttl_policy = record {
  State = TtlOnly;
  on_access = λ now. on_access;
  on_insert = λ now. on_insert;
  on_evict = on_evict;
  evict = λ t. (evict t, t);
  name = codes "ttl";
}
