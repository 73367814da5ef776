-- ===== src/Tests/Heaps.antt =====
-- internal/eviction: the policies that keep a heap, on a few keys.
use distributed_caching.Prelude.{
  ◌≡◌, ◌≤◌, ◌<◌, ◌⊎◌, arith, refl, false, List, [], ◌∷◌, some, none, Str, codes, Str-discrete,
  str_key, Time, true, seconds,
}
use distributed_caching.Prelude.Dict.{lookup, insert, delete, has}
use distributed_caching.Eviction.Heap.{
  swap, push_last, pop_last, up_loop, up, smaller_child, down_loop, down, sift, fix, push, remove,
}
use distributed_caching.Eviction.Indexed.{
  new_indexed, insert_entry, drop_entry, touch_entry, first_key,
}
use distributed_caching.Cache
use distributed_caching.Cache.Reads
use distributed_caching.Cache.Reads.{Call, set_call}
use distributed_caching.Eviction.Ttl
use distributed_caching.Eviction.Ttl.History as Expiries
use distributed_caching.Eviction.Lfu
use distributed_caching.Eviction.Lfu.History as Uses

abbrev pub a : Str
a = codes "a"

abbrev pub b : Str
b = codes "b"

abbrev pub c : Str
c = codes "c"

-- `a` would expire last; the access to `c` counts for nothing, and `b` is evicted.
abbrev expiring : List Expiries.Event
expiring =
    Expiries.insert_event a 900
    ∷ Expiries.insert_event b 300
    ∷ Expiries.insert_event c 500
    ∷ Expiries.access_event c
    ∷ Expiries.evict_event b
    ∷ []

-- The definitions that the runs below compute with.
program : Unit {0}
unfolding Str-discrete Ttl.evict Expiries.run Expiries.expiries Ttl.new_ttl_only Ttl.on_access
    Ttl.on_insert Ttl.on_evict Lfu.evict Uses.run Uses.uses Lfu.new_lfu Lfu.on_access Lfu.on_insert
    Lfu.on_evict Lfu.lfu_less new_indexed insert_entry drop_entry touch_entry first_key lookup
    insert delete swap push_last pop_last up_loop up smaller_child down_loop down sift fix push
    remove
program = tt

evict-run_earliest_example :
    (x : Time) × (Expiries.expiries (λ j. none) expiring c ≡ some x)
    × ((j : Str) (y : Time) → Expiries.expiries (λ j. none) expiring j ≡ some y → x ≤ y)
unfolding program Expiries.IsLegal
evict-run_earliest_example =
    Expiries.evict-run_earliest expiring {k = c} (refl, (refl, (refl, (tt, (tt, tt))))) refl

-- `a` is used three times and `b` and `c` once, `b` earlier than `c`.
abbrev using : List Uses.Event
using =
    Uses.insert_event 10 a
    ∷ Uses.insert_event 11 b
    ∷ Uses.access_event 12 a
    ∷ Uses.insert_event 13 c
    ∷ Uses.access_event 14 a
    ∷ []

evict-run_least_used_example :
    (u : Uses.Uses) × (Uses.uses (λ j. none) using b ≡ some u)
    × ((j : Str) (v : Uses.Uses)
        → Uses.uses (λ j. none) using j ≡ some v
        → (u.times < v.times) ⊎ ((u.times ≡ v.times) × u.last ≤ v.last))
unfolding program Uses.IsLegal
evict-run_least_used_example =
    Uses.evict-run_least_used using {k = b} (omega arith) (refl, (refl, (tt, (refl, (tt, tt)))))
      refl

-- A cache of two entries under the TTL-only policy: `a` is set for 10 seconds, `b` for 60, then `a`
-- again for an hour, and at last `c`.
abbrev renewed : List Call
renewed =
    set_call a (codes "1") (seconds 10) 1000
    ∷ set_call b (codes "2") (seconds 60) 1001
    ∷ set_call a (codes "3") (seconds 3600) 1002
    ∷ set_call c (codes "4") (seconds 60) 1003
    ∷ []

-- `a` goes, which would have expired last: the policy kept the time of its first insertion.
renewed_evicts_a :
    let done = Reads.run (Expiries.ttl_cache 2) renewed in
    (has a done.entries ≡ false) × (has b done.entries ≡ true)
unfolding program Expiries.ttl_cache Ttl.ttl_policy Cache.new Reads.run Reads.step Cache.set
    Cache.store Cache.update_entry Cache.insert_entry Cache.make_room Cache.drop_victim
renewed_evicts_a = (refl, refl)
