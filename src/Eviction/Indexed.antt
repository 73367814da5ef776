-- ===== src/Eviction/Indexed.antt =====
-- internal/eviction: what LFU (lfu.go) and TTLOnly (ttl.go) have in common: a map from keys to
-- entries, and a heap of the same entries.
pub mod Shape
pub mod Pushes
pub mod Removes
pub mod Known
pub mod Tracking
use distributed_caching.Prelude.{
  ℕ, ◌+◌, Bool, Option, none, some, [], ◌==◌, if◌then◌else◌, Str, str_key, length,
}
use distributed_caching.Prelude.Dict.{Dict, lookup, insert, delete}
use distributed_caching.Eviction.Heap.{Addr, Entry, Heap, slot, push, remove, fix}

pub record Indexed (P : Type 0) : Type 0 where
  pub heap : Heap P
  pub entries : Dict Str Addr
  pub fresh : Addr  -- no entry has this address or a later one

module _ {P : Type 0} where
  -- What the constructors make; the payload stands at addresses that are not in use.
  unfoldable pub new_indexed : P → Indexed P
  new_indexed p = record {
    heap = record { objs = λ a. record { key = []; payload = p; index = none }; slots = [] };
    entries = [];
    fresh = 0;
  }

  -- `&lfuEntry{...}`, `&ttlEntry{...}`: the index starts at 0.
  abbrev pub alloc : Addr → Str → P → Heap P → Heap P
  alloc a key p h = record h {
    objs = λ x. if x == a then record { key = key; payload = p; index = some 0 } else h.objs x;
  }

  -- The body of `OnInsert`.
  unfoldable pub insert_entry : (P → P → Bool) → Str → P → Indexed P → Indexed P
  insert_entry less key p s = record {
    heap = push less s.fresh (alloc s.fresh key p s.heap);
    entries = insert key s.fresh s.entries;
    fresh = s.fresh + 1;
  }

  -- `heap.Remove(h, entry.index)`: an entry of the map is in the heap, so that its index is not -1.
  abbrev pub remove_at : (P → P → Bool) → Option ℕ → Heap P → Heap P
  remove_at less none h = h
  remove_at less (some i) h = remove less i h

  -- The body of `OnEvict`.
  unfoldable pub drop_entry : (P → P → Bool) → Str → Indexed P → Indexed P
  drop_entry less key s = elim (lookup key s.entries) [
    | none ↦ s
    | some a ↦ record s {
      heap = remove_at less (s.heap.objs a).index s.heap;
      entries = delete key s.entries;
    }
  ]

  abbrev pub fix_at : (P → P → Bool) → Option ℕ → Heap P → Heap P
  fix_at less none h = h
  fix_at less (some i) h = fix less i h

  abbrev pub set_payload : Addr → P → Heap P → Heap P
  set_payload a p h = record h {
    objs = λ x. if x == a then record (h.objs x) { payload = p } else h.objs x;
  }

  -- The body of `OnAccess` of LFU, for a change of the payload.
  unfoldable pub touch_entry : (P → P → Bool) → (P → P) → Str → Indexed P → Indexed P
  touch_entry less change key s = elim (lookup key s.entries) [
    | none ↦ s
    | some a ↦ record s {
      heap =
          fix_at less (s.heap.objs a).index (set_payload a (change (s.heap.objs a).payload) s.heap);
    }
  ]

  -- The body of `Evict`.
  unfoldable pub first_key : Indexed P → Option Str
  first_key s = if length s.heap.slots == 0 then none else some (s.heap.objs (slot s.heap 0)).key
