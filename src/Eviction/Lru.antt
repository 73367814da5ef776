-- ===== src/Eviction/Lru.antt =====
-- internal/eviction/lru.go: a map into a doubly linked list with two sentinels. The nodes live on a
-- heap under addresses; the address 0 is the head sentinel and 1 the tail sentinel.
pub mod Links
pub mod Shape
pub mod Recency
use distributed_caching.Prelude.{
  ℕ, suc, ◌+◌, Bool, true, false, Option, none, some, ◌==◌, if◌then◌else◌, Str, str_key, Time, List,
  [], ◌∷◌, codes,
}
use distributed_caching.Prelude.Dict.{Dict, lookup, insert, delete}
use distributed_caching.Policy.{EvictionPolicy}

abbrev pub Addr : Type 0
Addr = ℕ

-- lruNode
pub record Node : Type 0 where
  pub key : Str
  pub prev : Addr
  pub next : Addr

abbrev pub Heap : Type 0
Heap = Addr → Node

abbrev pub head : Addr
head = 0

abbrev pub tail : Addr
tail = 1

-- `a.prev = b`, `a.next = b`
abbrev pub set_prev : Addr → Addr → Heap → Heap
set_prev a b h x = if x == a then record (h x) { prev = b } else h x

abbrev pub set_next : Addr → Addr → Heap → Heap
set_next a b h x = if x == a then record (h x) { next = b } else h x

-- `&lruNode{key: key}`: the pointers of a new node are nil, for which any address may stand, since
-- they are written before they are read.
abbrev pub alloc : Addr → Str → Heap → Heap
alloc a key h x = if x == a then record { key = key; prev = 0; next = 0 } else h x

pub record Lru : Type 0 where
  pub nodes : Dict Str Addr
  pub heap : Heap
  pub fresh : Addr  -- no node has this address or a later one

-- `NewLRU`
unfoldable pub new_lru : Lru
new_lru = record {
  nodes = [];
  heap = λ x. record { key = []; prev = head; next = tail };
  fresh = 2;
}

unfoldable pub insert_at_front : Addr → Heap → Heap
insert_at_front node h0 =
    let h1 = set_prev node head h0 in
    let h2 = set_next node (h1 head).next h1 in
    let h3 = set_prev (h2 head).next node h2 in set_next head node h3

unfoldable pub remove_node : Addr → Heap → Heap
remove_node node h0 =
    let h1 = set_next (h0 node).prev (h0 node).next h0 in set_prev (h1 node).next (h1 node).prev h1

unfoldable pub move_to_front : Addr → Heap → Heap
move_to_front node h = insert_at_front node (remove_node node h)

unfoldable pub on_access : Str → Lru → Lru
on_access key l = elim (lookup key l.nodes) [
  | none ↦ l
  | some node ↦ record l { heap = move_to_front node l.heap }
]

unfoldable pub on_insert : Str → Lru → Lru
on_insert key l = record {
  nodes = insert key l.fresh l.nodes;
  heap = insert_at_front l.fresh (alloc l.fresh key l.heap);
  fresh = l.fresh + 1;
}

unfoldable pub on_evict : Str → Lru → Lru
on_evict key l = elim (lookup key l.nodes) [
  | none ↦ l
  | some node ↦ record l { heap = remove_node node l.heap; nodes = delete key l.nodes }
]

unfoldable pub evict : Lru → Option Str
evict l = if (l.heap tail).prev == head then none else some (l.heap (l.heap tail).prev).key

-- `LRU` as an implementation of the interface: it reads no clock.
unfoldable pub lru_policy : EvictionPolicy
lru_policy = record {
  State = Lru;
  on_access = λ now. on_access;
  on_insert = λ now key expires_at. on_insert key;
  on_evict = on_evict;
  evict = λ l. (evict l, l);
  name = codes "lru";
}
