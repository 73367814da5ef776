-- ===== src/Tests/Cache.antt =====
-- internal/cache: a cache with room for two keys over the LRU policy.
use distributed_caching.Prelude.{
  ◌≡◌, refl, ap, get_or, false, List, [], ◌∷◌, none, some, ◌⊎◌, arith, Str, codes, seconds, str_key,
  Str-discrete, past,
}
use distributed_caching.Eviction.Lru.{
  lru_policy, new_lru, insert_at_front, remove_node, move_to_front, on_access, on_insert, on_evict,
  evict,
}
use distributed_caching.Eviction.Lru.Shape.{lru_laws, lru_cache, lru_cache-IsValid}
use distributed_caching.Cache.{
  InMemoryCache, is_expired, expire, touch, get, drop_victim, make_room, update_entry, insert_entry,
  store, set, remove, new,
}
use distributed_caching.Prelude.Dict.{lookup, insert, delete}
use distributed_caching.Cache.Valid.{IsValid}
use distributed_caching.Cache.Reads.{
  Call, get_call, set_call, run, step, ideal_run, Item, run-IsValid, get-run, get-set, set-other,
  view, IsVictim,
}

abbrev a : Str
a = codes "a"

abbrev b : Str
b = codes "b"

abbrev c : Str
c = codes "c"

abbrev empty : InMemoryCache lru_policy
empty = lru_cache 2

empty-IsValid : IsValid lru_laws empty
empty-IsValid = lru_cache-IsValid 2 (omega arith)

-- `a` is set, `b` is set, `a` is read, `c` pushes `b` out.
abbrev calls : List Call
calls =
    set_call a (codes "1") (seconds 60) 1000
    ∷ set_call b (codes "2") (seconds 0) 1001
    ∷ get_call a 1002 1003
    ∷ set_call c (codes "3") (seconds 5) 1004
    ∷ []

abbrev after_calls : InMemoryCache lru_policy
after_calls = run empty calls

program : Unit {0}
unfolding lru_cache lru_policy new_lru insert_at_front remove_node move_to_front on_access on_insert
    on_evict evict is_expired expire touch get drop_victim make_room update_entry insert_entry store
    set remove new lookup insert delete run step ideal_run
program = tt

b_gone : (get after_calls b 1005 1006).1 ≡ none
unfolding program Str-discrete
b_gone = refl

a_kept : (get after_calls a 1005 1006).1 ≡ some (codes "1")
unfolding program Str-discrete
a_kept = refl

run-IsValid_example : IsValid lru_laws after_calls
run-IsValid_example = run-IsValid lru_laws empty calls empty-IsValid

get-run_example :
    (x : Item) × (ideal_run (λ _. none) calls a ≡ some x)
    × (x.value ≡ codes "1")
    × (past x.expires_at 1005 ≡ false)
unfolding lru_cache new
get-run_example = get-run lru_laws empty calls a 1005 1006 empty-IsValid refl a_kept

get-set_example :
    (get (set empty a (codes "1") (seconds 60) 1000).0 a 60_000_001_000 60_000_001_001).1
    ≡ some (codes "1")
unfolding program Str-discrete
get-set_example =
    get-set lru_laws empty a (codes "1") (seconds 60) 1000 60_000_001_000 60_000_001_001
      empty-IsValid refl refl

-- `c` is new and the cache holds `a` and `b`.
abbrev full : InMemoryCache lru_policy
full =
    run empty
      (set_call a (codes "1") (seconds 60) 1000 ∷ set_call b (codes "2") (seconds 0) 1001 ∷ [])

full-IsValid : IsValid lru_laws full
full-IsValid = run-IsValid lru_laws empty _ empty-IsValid

set-other_example :
    (view (set full c (codes "3") (seconds 5) 1004).0 a ≡ view full a)
    ⊎ ((view (set full c (codes "3") (seconds 5) 1004).0 a ≡ none) × IsVictim lru_laws full c a)
set-other_example =
    set-other lru_laws full c (codes "3") (seconds 5) 1004 a full-IsValid
      (λ e. omega (arith, ap (λ s. get_or s 0 0) e))
