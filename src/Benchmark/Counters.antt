-- ===== src/Benchmark/Counters.antt =====
-- internal/benchmark/eviction.go: what the counters add up to.
use distributed_caching.Prelude.{
  ℕ, suc, ◌+◌, ◌-◌, ◌^◌, ◌≤◌, ◌<◌, ◌≡◌, refl, ap, sym, inl, inr, List, [], ◌∷◌, if◌then◌else◌,
  length, int64, arith, Option-cases, Bool-cases, ◌&&◌, leb, subst,
}
use distributed_caching.Policy.{EvictionPolicy, Laws}
use distributed_caching.Cache.{InMemoryCache, get, len}
use distributed_caching.Cache.Valid.{IsValid, get-IsValid, set-IsValid}
use distributed_caching.Benchmark.{Timed, Tally, count_read, put_value, read_op, write_op, run_ops}

-- The operations that read.
abbrev pub reads : List Timed → ℕ
reads [] = 0
reads (t ∷ ts) = if t.op.is_read then suc (reads ts) else reads ts

module _ {p : EvictionPolicy} (l : Laws p) where
  -- A valid cache and the three counters.
  record Counted (h m e : ℕ) (s : Tally p) : Type 0 where
    cache : IsValid l s.cache
    hits : s.hits ≡ int64 h
    misses : s.misses ≡ int64 m
    evictions : s.evictions ≡ int64 e

  read_op-Counted :
      (t : Timed) (s : Tally p) (h m e : ℕ)
      → h + m < 2 ^ 63 - 1
      → Counted h m e s
      → (h' : ℕ) × (m' : ℕ) × (h' + m' ≡ h + m + 1) × Counted h' m' e (read_op t s)
  unfolding read_op
  read_op-Counted t s h m e lt v =
      let w = get-IsValid l s.cache t.op.key t.checked t.read_at v.cache in
      elim (Option-cases (get s.cache t.op.key t.checked t.read_at).1) [
        | inl none_there ↦ (
          h,
          m + 1,
          omega arith,
          rw (none_there, count_read)
              (record {
                cache = set-IsValid l _ t.op.key _ _ t.set_at w;
                hits = v.hits;
                misses = omega (arith, v.misses, lt);
                evictions = v.evictions;
              }),
        )
        | inr (x, there) ↦ (
          h + 1,
          m,
          omega arith,
          rw (there, count_read)
              (record {
                cache = w;
                hits = omega (arith, v.hits, lt);
                misses = v.misses;
                evictions = v.evictions;
              }),
        )
      ]

  write_op-Counted :
      (capacity : ℕ) (t : Timed) (s : Tally p) (h m e : ℕ)
      → e < 2 ^ 63 - 1
      → Counted h m e s
      → (e' : ℕ) × (e' ≤ e + 1) × Counted h m e' (write_op capacity t s)
  unfolding write_op
  write_op-Counted capacity t s h m e lt v =
      let c = put_value t s.cache in
      let w = set-IsValid l s.cache t.op.key _ _ t.set_at v.cache in
      elim (Bool-cases (leb (len c) (len s.cache) && leb capacity (len s.cache))) [
        | inl full ↦ (
          e + 1,
          omega arith,
          rw (full, write_op)
              (record {
                cache = w;
                hits = v.hits;
                misses = v.misses;
                evictions = omega (arith, v.evictions, lt);
              }),
        )
        | inr room ↦ (
          e,
          omega arith,
          rw (room, write_op)
              (record { cache = w; hits = v.hits; misses = v.misses; evictions = v.evictions }),
        )
      ]

  run_ops-Counted :
      (capacity : ℕ) (ts : List Timed) (s : Tally p) (h m e : ℕ)
      → h + m + length ts < 2 ^ 63
      → e + length ts < 2 ^ 63
      → Counted h m e s
      → (h' : ℕ) × (m' : ℕ) × (e' : ℕ) × (h' + m' ≡ h + m + reads ts)
        × (e' + reads ts ≤ e + length ts)
        × Counted h' m' e' (run_ops capacity ts s)
  unfolding run_ops
  run_ops-Counted capacity [] s h m e lt less v = (h, m, e, omega arith, omega arith, v)
  run_ops-Counted capacity (t ∷ ts) s h m e lt less v = elim (Bool-cases t.op.is_read) [
    | inl r ↦
        let (h1, m1, sum, w) = read_op-Counted t s h m e (omega (arith, lt)) v in
        let (h', m', e', total, evicted, done) =
          run_ops-Counted capacity ts (read_op t s) h1 m1 e (omega (arith, lt, sum))
            (omega (arith, less)) w in
        let counted = ap (λ b. if b then suc (reads ts) else reads ts) r in
        let next =
          ap (λ b. run_ops capacity ts (if b then read_op t s else write_op capacity t s)) r in
        (
          h',
          m',
          e',
          omega (arith, total, sum, counted),
          omega (arith, evicted, counted),
          subst (Counted h' m' e') (sym next) done,
        )
    | inr r ↦
        let (e1, more, w) = write_op-Counted capacity t s h m e (omega (arith, less)) v in
        let (h', m', e', total, evicted, done) =
          run_ops-Counted capacity ts (write_op capacity t s) h m e1 (omega (arith, lt))
            (omega (arith, less, more)) w in
        let counted = ap (λ b. if b then suc (reads ts) else reads ts) r in
        let next =
          ap (λ b. run_ops capacity ts (if b then read_op t s else write_op capacity t s)) r in
        (
          h',
          m',
          e',
          omega (arith, total, counted),
          omega (arith, evicted, more, counted),
          subst (Counted h' m' e') (sym next) done,
        )
  ]

  -- For fewer than 2^63 operations, from a valid cache over a policy that obeys the laws and counters
  -- at 0: each read is counted as a hit or as a miss, at most each write as an eviction, and the cache
  -- is valid in the end.
  pub run_ops-counts :
      (capacity : ℕ) (ts : List Timed) (c : InMemoryCache p)
      → length ts < 2 ^ 63
      → IsValid l c
      → let done =
          run_ops capacity ts
            (record { cache = c; hits = int64 0; misses = int64 0; evictions = int64 0 }) in
        (h : ℕ) × (m : ℕ) × (e : ℕ) × (done.hits ≡ int64 h)
        × (done.misses ≡ int64 m)
        × (done.evictions ≡ int64 e)
        × (h + m ≡ reads ts)
        × (e + reads ts ≤ length ts)
        × IsValid l done.cache
  run_ops-counts capacity ts c lt v =
      let start : Tally p = record {
        cache = c;
        hits = int64 0;
        misses = int64 0;
        evictions = int64 0;
      } in
      let (h, m, e, total, evicted, done) =
        run_ops-Counted capacity ts start 0 0 0 (omega (arith, lt)) (omega (arith, lt))
          (record { cache = v; hits = refl; misses = refl; evictions = refl }) in
      (
        h,
        m,
        e,
        done.hits,
        done.misses,
        done.evictions,
        omega (arith, total),
        omega (arith, evicted),
        done.cache,
      )
