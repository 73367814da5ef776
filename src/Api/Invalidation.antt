-- ===== src/Api/Invalidation.antt =====
-- internal/shared/cache.go and internal/invalidation: the interface of a cache as its clients see it,
-- and what the three strategies do to it after a write.
use distributed_caching.Prelude.{
  Bool, true, false, Option, none, some, List, [], ◌∷◌, ◌++◌, Str, Time, Duration, seconds,
}
use distributed_caching.Policy.{EvictionPolicy}
use distributed_caching.Cache.{InMemoryCache, SetError}
use distributed_caching.Cache

-- `shared.Cache`: `get` answers none for an error, `set` and `delete` whether they succeeded. The
-- time is the reading of the clock that the call makes.
pub record SharedCache : Type 1 where
  pub State : Type 0
  pub get : Str → Time → State → State × Option (Option Str)
  pub set : Str → Str → Duration → Time → State → State × Bool
  pub delete : Str → Time → State → State × Bool

abbrev pub succeeded : Option SetError → Bool
succeeded none = true
succeeded (some e) = false

-- The in-memory cache as an implementation of the interface.
abbrev pub in_memory : EvictionPolicy → SharedCache
in_memory p = record {
  State = InMemoryCache p;
  get = λ key now c. ((Cache.get c key now now).0, some (Cache.get c key now now).1);
  set = λ key value ttl now c.
      ((Cache.set c key value ttl now).0, succeeded (Cache.set c key value ttl now).1);
  delete = λ key now c. (Cache.remove c key, true);
}

pub data Strategy : Type 0 where
  ttl write_through write_behind : Strategy

-- The cache, and the deletions that background goroutines have yet to make.
pub record Pending (cache : SharedCache) : Type 0 where
  pub state : cache.State
  pub deletions : List Str

abbrev pub write_through_ttl : Duration
write_through_ttl = seconds 300

-- `OnWrite`, whose error the caller drops
unfoldable pub on_write :
    (cache : SharedCache) → Strategy → Str → Str → Time → Pending cache → Pending cache
on_write cache ttl key value now s = s
on_write cache write_through key value now s = record s {
  state = (cache.set key value write_through_ttl now s.state).0;
}
on_write cache write_behind key value now s = record s { deletions = s.deletions ++ key ∷ [] }

-- The body of a goroutine of write-behind, when it comes to run: its error is logged.
unfoldable pub delete_later : (cache : SharedCache) → Str → Time → Pending cache → Pending cache
delete_later cache key now s = record s { state = (cache.delete key now s.state).0 }
