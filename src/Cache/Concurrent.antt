-- ===== src/Cache/Concurrent.antt =====
-- internal/cache/cache.go: the methods of the cache as its locks divide them. The map holds pointers,
-- so that a goroutine may still hold an entry which the map has dropped. What runs under a lock is
-- one step, and so is each reading of the clock or of a field outside the locks; other calls may come
-- between two steps of a call. Since a locked section is one step, no call is ever seen to wait for
-- a lock.
pub mod Deref
pub mod View
pub mod Alone
pub mod Effect
pub mod Safety
pub mod Replies
use distributed_caching.Prelude.{
  ℕ, ◌+◌, List, [], ◌∷◌, Option, none, some, ltb, leb, if◌then◌else◌, ite, length, Str, Time,
  Duration, int64, inc64, seconds, ◌==◌, ℕ_discrete, str_key,
}
use distributed_caching.Prelude.Dict.{Dict, lookup, insert, delete}
use distributed_caching.Policy.{EvictionPolicy}
use distributed_caching.Cache.{
  CacheEntry, InMemoryCache, is_expired, expiry, SetError, negative_ttl, ttl_too_long,
}

abbrev pub Addr : Type 0
Addr = ℕ

abbrev pub update {ℓ} : {A : Type ℓ} → (ℕ → A) → ℕ → A → ℕ → A
update f i a j = ite (ℕ_discrete i j) a (f j)

-- What the map holds, with the objects that its pointers point to.
abbrev pub deref : (Addr → CacheEntry) → Dict Str Addr → Dict Str CacheEntry
deref objs [] = []
deref objs ((k, a) ∷ m) = (k, objs a) ∷ deref objs m

module _ (p : EvictionPolicy) where
  -- The cache and the entries that were ever allocated, under their addresses.
  pub record Shared : Type 0 where
    pub entries : Dict Str Addr
    pub objs : Addr → CacheEntry
    pub fresh : Addr
    pub capacity : ℕ
    pub policy : p.State

module _ {p : EvictionPolicy} where
  -- What the methods of the sequential cache see.
  unfoldable pub view : Shared p → InMemoryCache p
  view s = record { entries = deref s.objs s.entries; capacity = s.capacity; policy = s.policy }

  unfoldable pub new_shared : ℕ → p.State → Shared p
  new_shared capacity policy = record {
    entries = [];
    objs = λ _. record {
      key = [];
      value = [];
      expires_at = 0;
      created_at = 0;
      accessed_at = 0;
      access_count = int64 0;
    };
    fresh = 0;
    capacity = capacity;
    policy = policy;
  }

  abbrev pub drop_key : Shared p → Str → p.State → Shared p
  drop_key s key policy = record s {
    entries = delete key s.entries;
    policy = p.on_evict key policy;
  }

  -- Under the write lock of `Get`, when the entry that it read had expired.
  unfoldable pub expire_key : Shared p → Str → Time → Shared p
  expire_key s key now = elim (lookup key s.entries) [
    | none ↦ s
    | some a ↦ if is_expired (s.objs a) now then drop_key s key s.policy else s
  ]

  -- Under the write lock of `Get`, when the entry that it read was live. The map is not asked again.
  unfoldable pub touch_object : Shared p → Str → Addr → Time → Shared p
  touch_object s key a now = record s {
    objs =
        update s.objs a
          (record (s.objs a) { accessed_at = now; access_count = inc64 (s.objs a).access_count });
    policy = p.on_access now key s.policy;
  }

  unfoldable pub drop_for_room : Shared p → Option Str → p.State → Shared p
  drop_for_room s none policy = record s { policy = policy }
  drop_for_room s (some key) policy = drop_key s key policy

  unfoldable pub room_for_new : Shared p → Shared p
  room_for_new s =
      if leb s.capacity (length s.entries)
      then (let (victim, policy) = p.evict s.policy in drop_for_room s victim policy)
      else s

  -- `Set` on a key that is there writes through the pointer of the map. The policy reads
  -- the clock again, under the lock.
  unfoldable pub update_object : Shared p → Str → Addr → Str → Time → Time → Time → Shared p
  update_object s key a value expires_at now locked = record s {
    objs = update s.objs a (record (s.objs a) {
      value = value;
      expires_at = expires_at;
      accessed_at = now;
      access_count = inc64 (s.objs a).access_count;
    });
    policy = p.on_access locked key s.policy;
  }

  unfoldable pub insert_object : Shared p → Str → Str → Time → Time → Time → Shared p
  insert_object s key value expires_at now locked = record s {
    entries = insert key s.fresh s.entries;
    objs = update s.objs s.fresh (record {
      key = key;
      value = value;
      expires_at = expires_at;
      created_at = now;
      accessed_at = now;
      access_count = int64 1;
    });
    fresh = s.fresh + 1;
    policy = p.on_insert locked key expires_at s.policy;
  }

  unfoldable pub store_object : Shared p → Str → Str → Time → Time → Time → Shared p
  store_object s key value expires_at now locked = elim (lookup key s.entries) [
    | none ↦ insert_object (room_for_new s) key value expires_at now locked
    | some a ↦ update_object s key a value expires_at now locked
  ]

  unfoldable pub remove_key : Shared p → Str → Shared p
  remove_key s key = elim (lookup key s.entries) [ none ↦ s | some _ ↦ drop_key s key s.policy ]

pub data Request : Type 0 where
  get_request : (key : Str) → Request
  set_request : (key value : Str) (ttl : Duration) → Request
  remove_request : (key : Str) → Request

-- How far a call has come.
pub data Phase : Type 0 where
  asked : Request → Phase
  -- `Get` has left the read lock with a pointer.
  found : (key : Str) (a : Addr) → Phase
  -- `Get` has read the clock, and is about to test the entry by it.
  timed : (key : Str) (a : Addr) (now : Time) → Phase
  -- `Get` has tested the entry, and waits for the write lock.
  old : (key : Str) → Phase
  live : (key : Str) (a : Addr) → Phase
  -- `Get` has left the write lock, and is about to read `entry.Value`.
  touched : (key : Str) (a : Addr) → Phase
  got : Option Str → Phase
  -- `Set` has read the clock, and waits for the lock.
  storing : (key value : Str) (expires_at now : Time) → Phase
  stored : Option SetError → Phase
  removed : Phase

-- `entry, exists := c.entries[key]`
abbrev pub look_up : Str → Option Addr → Phase
look_up key none = got none
look_up key (some a) = found key a

abbrev pub admit : Str → Str → Duration → Time → Phase
admit key value ttl now =
    if ltb ttl (int64 0)
    then stored (some negative_ttl)
    else if ltb (seconds 86400) ttl
    then stored (some ttl_too_long)
    else storing key value (expiry now ttl) now

module _ {p : EvictionPolicy} where
  -- The next step of a call, at a reading of the clock.
  unfoldable pub advance : Shared p → Time → Phase → Shared p × Phase
  advance s now (asked (get_request key)) = (s, look_up key (lookup key s.entries))
  advance s now (asked (set_request key value ttl)) = (s, admit key value ttl now)
  advance s now (asked (remove_request key)) = (remove_key s key, removed)
  advance s now (found key a) = (s, timed key a now)
  advance s now (timed key a read) = (s, if is_expired (s.objs a) read then old key else live key a)
  advance s now (old key) = (expire_key s key now, got none)
  advance s now (live key a) = (touch_object s key a now, touched key a)
  advance s now (touched key a) = (s, got (some (s.objs a).value))
  advance s now (got r) = (s, got r)
  advance s now (storing key value expires_at at_call) =
      (store_object s key value expires_at at_call now, stored none)
  advance s now (stored r) = (s, stored r)
  advance s now removed = (s, removed)

module _ (p : EvictionPolicy) where
  -- The cache, the calls under their numbers, and the clock.
  pub record System : Type 0 where
    pub shared : Shared p
    pub calls : ℕ → Phase
    pub clock : Time

module _ {p : EvictionPolicy} where
  -- Every call before its first step.
  unfoldable pub start : Shared p → (ℕ → Request) → Time → System p
  start s requests clock = record { shared = s; calls = λ t. asked (requests t); clock = clock }

  unfoldable pub move : ℕ → System p → System p
  move t m =
      let (s, phase) = advance m.shared m.clock (m.calls t) in
      record m { shared = s; calls = update m.calls t phase }

  -- Some call makes its next step, or the clock shows another time.
  pub data Step (m : System p) : System p → Type 0 where
    moves : (t : ℕ) → Step m (move t m)
    ticks : (now : Time) → Step m (record m { clock = now })

  pub data Run (m : System p) : System p → Type 0 where
    here : Run m m
    next : {n n' : System p} → Run m n → Step n n' → Run m n'
