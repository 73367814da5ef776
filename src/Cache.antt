-- ===== src/Cache.antt =====
-- internal/cache: the in-memory cache, over any eviction policy. A method takes the readings of
-- the clock that it makes, and returns the new state beside its results. The methods run one after
-- the other here; Concurrent has the interleavings that the locks allow.
pub mod Valid
pub mod Reads
pub mod Concurrent
use distributed_caching.Prelude.{
  ℕ, suc, ◌+◌, Bool, true, false, List, [], ◌∷◌, Option, none, some, ltb, leb, if◌then◌else◌,
  length, Str, Time, Duration, Int64, int64, inc64, seconds, ◌==◌, add_duration, past, str_key,
}
use distributed_caching.Prelude.Dict.{Dict, lookup, insert, delete}
use distributed_caching.Policy.{EvictionPolicy}

-- entry.go
pub record CacheEntry : Type 0 where
  pub key : Str
  pub value : Str
  pub expires_at : Time
  pub created_at : Time
  pub accessed_at : Time
  pub access_count : Int64

unfoldable pub is_expired : CacheEntry → Time → Bool
is_expired e now = past e.expires_at now

-- The expiry time that `Set` computes.
abbrev pub expiry : Time → Duration → Time
expiry now ttl = if ttl == int64 0 then now else add_duration now ttl

-- The loop of `LiveLen`.
unfoldable pub count_live : Dict Str CacheEntry → Time → ℕ
count_live [] now = 0
count_live ((k, e) ∷ m) now =
    let rest = count_live m now in if is_expired e now then rest else rest + 1

pub data SetError : Type 0 where
  negative_ttl ttl_too_long : SetError

module _ (p : EvictionPolicy) where
  pub record InMemoryCache : Type 0 where
    pub entries : Dict Str CacheEntry
    pub capacity : ℕ
    pub policy : p.State

module _ {p : EvictionPolicy} where
  -- `New`, given the state of a new policy
  unfoldable pub new : ℕ → p.State → InMemoryCache p
  new capacity policy = record { entries = []; capacity = capacity; policy = policy }

  -- The part of `Get` that runs when the entry has expired: `now` is the second reading.
  unfoldable pub expire : InMemoryCache p → Str → Time → InMemoryCache p
  expire c key now = elim (lookup key c.entries) [
    | none ↦ c
    | some e ↦
        if is_expired e now
        then record c { entries = delete key c.entries; policy = p.on_evict key c.policy }
        else c
  ]

  -- The part of `Get` that runs on a hit: `entry` is the object that the map holds.
  unfoldable pub touch : InMemoryCache p → Str → CacheEntry → Time → InMemoryCache p
  touch c key entry now = record c {
    entries =
        insert key (record entry { accessed_at = now; access_count = inc64 entry.access_count })
          c.entries;
    policy = p.on_access now key c.policy;
  }

  -- `Get` reads the clock when it tests the entry (`checked`) and again under the write lock (`now`).
  unfoldable pub get : InMemoryCache p → Str → Time → Time → InMemoryCache p × Option Str
  get c key checked now = elim (lookup key c.entries) [
    | none ↦ (c, none)
    | some entry ↦
        if is_expired entry checked
        then (expire c key now, none)
        else (touch c key entry now, some entry.value)
  ]

  -- The eviction of `Set`, before a new key goes into a full cache: what `Evict` answered, and what
  -- the cache then drops.
  unfoldable pub drop_victim : InMemoryCache p → Option Str → p.State → InMemoryCache p
  drop_victim c none s = record c { policy = s }
  drop_victim c (some k) s = record c { entries = delete k c.entries; policy = p.on_evict k s }

  unfoldable pub make_room : InMemoryCache p → InMemoryCache p
  make_room c =
      if leb c.capacity (length c.entries)
      then (let (victim, s) = p.evict c.policy in drop_victim c victim s)
      else c

  -- The map and policy updates of `Set`, for an old key and for a new one. The policy
  -- reads the clock for itself, under the lock.
  unfoldable pub update_entry :
      InMemoryCache p → Str → CacheEntry → Str → Time → Time → Time → InMemoryCache p
  update_entry c key existing value expires_at now locked = record c {
    entries =
        insert key
          (record existing {
            value = value;
            expires_at = expires_at;
            accessed_at = now;
            access_count = inc64 existing.access_count;
          })
          c.entries;
    policy = p.on_access locked key c.policy;
  }

  unfoldable pub insert_entry : InMemoryCache p → Str → Str → Time → Time → Time → InMemoryCache p
  insert_entry c key value expires_at now locked = record c {
    entries =
        insert key
          (record {
            key = key;
            value = value;
            expires_at = expires_at;
            created_at = now;
            accessed_at = now;
            access_count = int64 1;
          })
          c.entries;
    policy = p.on_insert locked key expires_at c.policy;
  }

  -- `Set` once the TTL is accepted.
  unfoldable pub store : InMemoryCache p → Str → Str → Time → Time → Time → InMemoryCache p
  store c key value expires_at now locked = elim (lookup key c.entries) [
    | none ↦ insert_entry (make_room c) key value expires_at now locked
    | some existing ↦ update_entry c key existing value expires_at now locked
  ]

  -- The clock is taken to stand still from the reading of `Set` to that of the policy.
  unfoldable pub set :
      InMemoryCache p → Str → Str → Duration → Time → InMemoryCache p × Option SetError
  set c key value ttl now =
      if ltb ttl (int64 0)
      then (c, some negative_ttl)
      else if ltb (seconds 86400) ttl
      then (c, some ttl_too_long)
      else (store c key value (expiry now ttl) now now, none)

  unfoldable pub remove : InMemoryCache p → Str → InMemoryCache p
  remove c key = elim (lookup key c.entries) [
    | none ↦ c
    | some _ ↦ record c { entries = delete key c.entries; policy = p.on_evict key c.policy }
  ]

  unfoldable pub len : InMemoryCache p → ℕ
  len c = length c.entries

  unfoldable pub live_len : InMemoryCache p → Time → ℕ
  live_len c now = count_live c.entries now
