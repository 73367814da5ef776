-- ===== src/Tests/Eviction.antt =====
-- internal/eviction: the policies on a few keys.
use distributed_caching.Prelude.{
  ℕ, ◌+◌, ◌≡◌, refl, List, [], ◌∷◌, some, arith, codes, str_key, Str-discrete, ◌%◌,
}
use distributed_caching.Eviction.Lru.{new_lru, evict}
use distributed_caching.Eviction.Lru.Recency.{
  Event, access_event, insert_event, evict_event, IsLegal, run, recency, last_key, evict-run,
}
use distributed_caching.Eviction.Random.{Rand}

abbrev events : List Event
events =
    insert_event (codes "a")
    ∷ insert_event (codes "b")
    ∷ insert_event (codes "c")
    ∷ access_event (codes "a")
    ∷ evict_event (codes "b")
    ∷ []

evict-run_example : evict (run new_lru events) ≡ last_key (recency [] events)
unfolding IsLegal Str-discrete
evict-run_example = evict-run events (refl, (refl, (refl, (tt, (tt, tt)))))

-- What the right-hand side is.
oldest : last_key (recency [] events) ≡ some (codes "c")
unfolding recency Str-discrete
oldest = refl

-- A source that draws 0, 1, 2, … in turn, below the bound.
abbrev pub turns : Rand
turns = record { State = ℕ; intn = λ n s. (s % n, s + 1); intn-lt = λ n s h. omega arith }
