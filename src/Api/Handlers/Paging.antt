-- ===== src/Api/Handlers/Paging.antt =====
-- internal/api/handler.go and internal/db/postgres.go: the pages of a list of products.
use distributed_caching.Prelude.{ℕ, ◌+◌, ◌-◌, ◌*◌, ◌^◌, ◌≤◌, ◌<◌, ◌≡◌, ◌∙◌, ap₂, Str, int64, arith}
use native.Mathlib.Nat.{mul-le-mul}
use distributed_caching.Config.{nat_of}
use distributed_caching.Api.Handlers.{page_of, page_size_of}
use distributed_caching.Database.{offset_of, dec64, mul64}

page_size_of-bounds : (s : Str) → (int64 1 ≤ page_size_of s) × (page_size_of s ≤ int64 100)
unfolding page_size_of
page_size_of-bounds s = ground arith

page_of-positive : (s : Str) → int64 1 ≤ page_of s
unfolding page_of
page_of-positive s = ground arith

mul64-exact : (x y : ℕ) → x * y < 2 ^ 63 → mul64 (int64 x) (int64 y) ≡ int64 (x * y)
mul64-exact x y small = omega arith

-- The offset of a page without an overflow.
offset_of-exact :
    (a b : ℕ)
    → a ≤ 92_233_720_368_547_757
    → b ≤ 100
    → offset_of (int64 (a + 1)) (int64 b) ≡ int64 (a * b)
offset_of-exact a b p q =
    let small : a * b < 2 ^ 63 = omega (arith, mul-le-mul p q) in
    let back : dec64 (int64 (a + 1)) ≡ int64 a = omega arith in rw back (mul64-exact a b small)

-- Whatever the two query values are, if the page number (counted as 1 when it is below 1) is at most
-- 92,233,720,368,547,758, then the page size is from 1 to 100, the page number is at least 1, and the
-- offset is the page size times the number of pages before, as an `int` that has not overflowed.
pub offset_of-pages :
    (page_value size_value : Str)
    → page_of page_value ≤ int64 92_233_720_368_547_758
    → let page = page_of page_value in
      let size = page_size_of size_value in
      (1 ≤ nat_of size)
      × (nat_of size ≤ 100)
      × (1 ≤ nat_of page)
      × (offset_of page size ≡ int64 ((nat_of page - 1) * nat_of size))
offset_of-pages page_value size_value h =
    let (low, high) = page_size_of-bounds size_value in
    let first = page_of-positive page_value in
    let a = nat_of (page_of page_value) - 1 in
    let b = nat_of (page_size_of size_value) in
    let page : page_of page_value ≡ int64 (a + 1) = omega (arith, first) in
    let size : page_size_of size_value ≡ int64 b = omega (arith, low) in
    (
      omega (arith, low),
      omega (arith, high),
      omega (arith, first),
      ap₂ offset_of page size ∙ offset_of-exact a b (omega (arith, h)) (omega (arith, high)),
    )
