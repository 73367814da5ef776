-- ===== src/Eviction/Heap.antt =====
-- internal/eviction: the heaps of lfu.go and ttl.go, which differ in what they order their entries
-- by, under the operations of `container/heap`. Entries live under addresses, since the heap and the
-- map of a policy share them; an entry knows its position. No index is ever out of range, so that
-- the fault that Go would raise has no place here.
pub mod Order
pub mod Swaps
pub mod Sift
use distributed_caching.Prelude.{
  ℕ, zero, suc, ◌+◌, ◌-◌, ◌*◌, ◌/◌, Bool, true, false, not, ◌&&◌, Option, none, some, List, [], ◌∷◌,
  ◌++◌, ◌==◌, ltb, leb, if◌then◌else◌, Str, length, get_or, set, take,
}

abbrev pub Addr : Type 0
Addr = ℕ

-- lfuEntry, ttlEntry: the key, what the order reads, and the index, which is none for -1.
pub record Entry (P : Type 0) : Type 0 where
  pub key : Str
  pub payload : P
  pub index : Option ℕ

-- The slice of pointers, and what they point to.
pub record Heap (P : Type 0) : Type 0 where
  pub objs : Addr → Entry P
  pub slots : List Addr

module _ {P : Type 0} where
  -- `h[i]`
  abbrev pub slot : Heap P → ℕ → Addr
  slot h i = get_or h.slots i 0

  -- The payload of `h[i]`.
  abbrev pub pay : Heap P → ℕ → P
  pay h i = (h.objs (slot h i)).payload

  -- `h[i].index = n`
  abbrev pub set_index : Addr → Option ℕ → (Addr → Entry P) → Addr → Entry P
  set_index a n objs x = if x == a then record (objs x) { index = n } else objs x

  -- `Swap`
  unfoldable pub swap : ℕ → ℕ → Heap P → Heap P
  swap i j h =
      let a = slot h i in
      let b = slot h j in
      record {
        objs = set_index a (some j) (set_index b (some i) h.objs);
        slots = set (set h.slots i b) j a;
      }

  -- `Push` of the interface
  unfoldable pub push_last : Addr → Heap P → Heap P
  push_last a h = record {
    objs = set_index a (some (length h.slots)) h.objs;
    slots = h.slots ++ a ∷ [];
  }

  -- `Pop` of the interface
  unfoldable pub pop_last : Heap P → Heap P
  pop_last h =
      let n = length h.slots in
      record { objs = set_index (slot h (n - 1)) none h.objs; slots = take (n - 1) h.slots }

  module _ (less : P → P → Bool) where
    -- `Less`
    abbrev pub less_at : Heap P → ℕ → ℕ → Bool
    less_at h i j = less (pay h i) (pay h j)

    -- The loop of `up`, on fuel.
    unfoldable pub up_loop : ℕ → ℕ → Heap P → Heap P
    up_loop zero j h = h
    up_loop (suc fuel) j h =
        let i = (j - 1) / 2 in
        let rest = up_loop fuel i (swap i j h) in
        if i == j then h else if less_at h j i then rest else h

    unfoldable pub up : ℕ → Heap P → Heap P
    up j h = up_loop (j + 1) j h

    -- The child that `down` compares with.
    unfoldable pub smaller_child : ℕ → ℕ → Heap P → ℕ
    smaller_child i n h =
        let j1 = 2 * i + 1 in let j2 = j1 + 1 in if ltb j2 n && less_at h j2 j1 then j2 else j1

    -- The loop of `down`, on fuel: the heap and the last position.
    unfoldable pub down_loop : ℕ → ℕ → ℕ → Heap P → Heap P × ℕ
    down_loop zero i n h = (h, i)
    down_loop (suc fuel) i n h =
        let j = smaller_child i n h in
        let rest = down_loop fuel j n (swap i j h) in
        if leb n (2 * i + 1) then (h, i) else if less_at h j i then rest else (h, i)

    -- `down` answers whether the element moved.
    unfoldable pub down : ℕ → ℕ → Heap P → Heap P × Bool
    down i n h = let (h', last) = down_loop (suc n) i n h in (h', ltb i last)

    -- What `Fix` and `Remove` do at position i of the first n.
    unfoldable pub sift : ℕ → ℕ → Heap P → Heap P
    sift i n h = let (h', moved) = down i n h in if moved then h' else up i h'

    -- `heap.Fix`
    unfoldable pub fix : ℕ → Heap P → Heap P
    fix i h = sift i (length h.slots) h

    -- `heap.Push`
    unfoldable pub push : Addr → Heap P → Heap P
    push a h = let h' = push_last a h in up (length h'.slots - 1) h'

    -- `heap.Remove`
    unfoldable pub remove : ℕ → Heap P → Heap P
    remove i h =
        let n = length h.slots - 1 in
        let h' = if n == i then h else sift i n (swap i n h) in pop_last h'
