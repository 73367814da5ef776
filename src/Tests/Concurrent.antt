-- ===== src/Tests/Concurrent.antt =====
-- internal/cache: three calls at once on a cache with room for two keys over the LRU policy.
use distributed_caching.Prelude.{
  ℕ, ◌≡◌, refl, some, arith, Str, codes, seconds, str_key, Str-discrete, ℕ_discrete, ite,
}
use distributed_caching.Prelude.Dict.{lookup, insert, delete}
use distributed_caching.Eviction.Lru.{
  lru_policy, new_lru, insert_at_front, remove_node, move_to_front, on_access, on_insert, on_evict,
  evict,
}
use distributed_caching.Eviction.Lru.Shape.{lru_laws, lru_cache, lru_cache-IsValid}
use distributed_caching.Cache.{is_expired, new}
use distributed_caching.Cache.Valid.{IsValid}
use distributed_caching.Cache.Concurrent.{
  view, new_shared, expire_key, touch_object, drop_for_room, room_for_new, update_object,
  insert_object, store_object, remove_key, Request, get_request, set_request, remove_request,
  advance, got, System, start, move, moves, Run, here, next,
}
use distributed_caching.Cache.Concurrent.Safety.{concurrent-IsValid}
use distributed_caching.Cache.Concurrent.Replies.{Answers, get_concurrent}
use distributed_caching.Cache.Concurrent.Alone.{moves_on, sequential, alone-sequential}

abbrev a : Str
a = codes "a"

-- Call 0 sets `a`, call 1 removes it, and the others read it.
abbrev requests : ℕ → Request
requests t =
    ite (ℕ_discrete t 0) (set_request a (codes "1") (seconds 60))
      (ite (ℕ_discrete t 1) (remove_request a) (get_request a))

abbrev no_keys : lru_policy.State
no_keys = (lru_cache 2).policy

abbrev initial : System lru_policy
initial = start (new_shared {p = lru_policy} 2 no_keys) requests 1000

program : Unit {0}
unfolding lru_cache new lru_policy new_lru insert_at_front remove_node move_to_front on_access
    on_insert on_evict evict is_expired expire_key touch_object drop_for_room room_for_new
    update_object insert_object store_object remove_key advance start move new_shared lookup insert
    delete ℕ_discrete
program = tt

-- `a` is set; the read finds it and takes it for live; then it is removed.
abbrev removed_early : System lru_policy
removed_early = move 1 (move 2 (move 2 (move 2 (move 0 (move 0 initial)))))

to_removed : Run initial removed_early
to_removed =
    next (next (next (next (next (next here (moves 0)) (moves 0)) (moves 2)) (moves 2)) (moves 2))
      (moves 1)

abbrev finished : System lru_policy
finished = move 2 (move 2 removed_early)

to_finished : Run initial finished
to_finished = next (next to_removed (moves 2)) (moves 2)

-- The read returns what was set, though the map has no entry any more.
read_removed : finished.calls 2 ≡ got (some (codes "1"))
unfolding program Str-discrete
read_removed = refl

get_concurrent_example : Answers a (some (codes "1")) to_finished
unfolding start ℕ_discrete
get_concurrent_example =
    get_concurrent {p = lru_policy} 2 no_keys requests 1000 2 a (some (codes "1")) here refl
      to_finished read_removed

concurrent-IsValid_example : IsValid lru_laws (view finished.shared)
unfolding lru_cache new lookup
concurrent-IsValid_example =
    concurrent-IsValid lru_laws 2 no_keys requests 1000 (omega arith)
      (lru_cache-IsValid 2 (omega arith)).policy (lru_cache-IsValid 2 (omega arith)).agrees
      to_finished

-- The cache when `a` is set, and before it is read.
abbrev with_a : System lru_policy
with_a = move 0 (move 0 initial)

alone-sequential_example :
    (view (moves_on 5 3 with_a).shared, (moves_on 5 3 with_a).calls 3)
    ≡ sequential (view with_a.shared) (get_request a) with_a.clock
unfolding program
alone-sequential_example =
    alone-sequential {p = lru_policy} 2 no_keys requests 1000 3 (get_request a)
      (next (next here (moves 0)) (moves 0)) refl
