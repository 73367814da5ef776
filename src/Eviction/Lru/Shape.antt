-- ===== src/Eviction/Lru/Shape.antt =====
-- internal/eviction/lru.go: the invariant of the LRU policy, and its laws as an eviction policy.
use distributed_caching.Prelude.{
  ℕ, ◌<◌, ◌≡◌, refl, ◌∙◌, inl, inr, true, false, List, [], ◌∷◌, ◌==◌, if◌then◌else◌, arith,
  Option-cases, none, some, Str, str_key, ite,
}
use distributed_caching.Prelude.Dict.{
  lookup, has, lookup-insert, lookup-delete, has-insert, has-delete,
}
use distributed_caching.Cache.{InMemoryCache, new}
use distributed_caching.Cache.Valid
use distributed_caching.Policy.{Laws}
use distributed_caching.Eviction.Lru.{
  Addr, Heap, Lru, head, tail, alloc, new_lru, insert_at_front, remove_node, move_to_front,
  on_access, on_insert, on_evict, evict, lru_policy,
}
use distributed_caching.Eviction.Lru.Links.{
  elem, erase, Distinct, Links, Links-frame, insert_at_front-Links, remove_node-Links, last_or,
  prev-tail, elem-last_or, elem-erase, erase-Distinct,
}

-- The nodes between the sentinels, most recently used first, are those that the map knows.
pub record Shape (l : Lru) (ns : List Addr) : Type 0 where
  pub links : Links l.heap head ns
  pub distinct : Distinct ns
  pub allocated : (n : Addr) → elem n ns ≡ true → (tail < n) × (n < l.fresh)
  pub started : tail < l.fresh
  pub listed :
      (k : Str) (n : Addr) → lookup k l.nodes ≡ some n → (elem n ns ≡ true) × ((l.heap n).key ≡ k)
  pub mapped : (n : Addr) → elem n ns ≡ true → lookup (l.heap n).key l.nodes ≡ some n

-- The links are all that the list operations change.
pub key-insert_at_front : (n x : Addr) (h : Heap) → (insert_at_front n h x).key ≡ (h x).key
unfolding insert_at_front
key-insert_at_front n x h = ground arith

pub key-remove_node : (n x : Addr) (h : Heap) → (remove_node n h x).key ≡ (h x).key
unfolding remove_node
key-remove_node n x h = ground arith

pub new_lru-Shape : Shape new_lru []
unfolding new_lru lookup
new_lru-Shape = record {
  links = (refl, refl);
  distinct = tt;
  allocated = λ n e. cc;
  started = omega arith;
  listed = λ k n e. cc;
  mapped = λ n e. cc;
}

module _ (l : Lru) (ns : List Addr) (s : Shape l ns) where
  head-not-elem : elem head ns ≡ false
  head-not-elem = ground (arith, s.allocated head)

  -- A use of a known key moves its node to the front.
  pub on_access-Shape :
      (k : Str) (n : Addr) → lookup k l.nodes ≡ some n → Shape (on_access k l) (n ∷ erase n ns)
  unfolding on_access move_to_front
  on_access-Shape k n found =
      rw (found, on_access)
        (record {
          links =
              insert_at_front-Links (remove_node n l.heap) n (erase n ns)
                (remove_node-Links l.heap head n ns s.links head-not-elem (omega arith) s.distinct
                  old)
                (ground (arith, old, s.allocated n)) (ground (arith, old, s.allocated n)) gone
                (ground (arith, elem-erase n head ns s.distinct, head-not-elem))
                (erase-Distinct n ns s.distinct);
          distinct = (gone, ground (arith, old, s.allocated n), erase-Distinct n ns s.distinct);
          allocated = λ m e.
              ground (arith, old, s.allocated n, s.allocated m, elem-erase n m ns s.distinct);
          started = s.started;
          listed = λ j m e. ground (arith, s.listed j m, elem-erase n m ns s.distinct, same m);
          mapped =
              λ m e. rw (same m) (s.mapped m (ground (arith, old, elem-erase n m ns s.distinct)));
        })
    where
      old : elem n ns ≡ true
      old = (s.listed k n found).0

      gone : elem n (erase n ns) ≡ false
      gone = ground (arith, elem-erase n n ns s.distinct)

      same : (m : Addr) → (insert_at_front n (remove_node n l.heap) m).key ≡ (l.heap m).key
      same m = key-insert_at_front n m (remove_node n l.heap) ∙ key-remove_node n m l.heap

  -- A new key gets a new node at the front.
  pub on_insert-Shape : (k : Str) → lookup k l.nodes ≡ none → Shape (on_insert k l) (l.fresh ∷ ns)
  unfolding on_insert
  on_insert-Shape k absent = record {
    links =
        insert_at_front-Links (alloc l.fresh k l.heap) l.fresh ns
          (Links-frame l.heap (alloc l.fresh k l.heap) head ns
            (λ x e. ground (arith, s.allocated x)) (λ x e. ground (arith, s.allocated x)) s.links)
          (omega arith) (omega arith) unused head-not-elem s.distinct;
    distinct = (unused, omega arith, s.distinct);
    allocated = λ m e. ground (arith, s.allocated m);
    started = omega arith;
    listed = λ j m e.
        ground (arith, lookup-insert k j l.fresh l.nodes, s.listed j m, s.allocated m, same m);
    mapped = λ m e. rw (same m) (
        ground (
          arith,
          s.mapped m,
          s.allocated m,
          lookup-insert k (l.heap m).key l.fresh l.nodes,
          lookup-insert k k l.fresh l.nodes,
        ));
  }
    where
      unused : elem l.fresh ns ≡ false
      unused = ground (arith, s.allocated l.fresh)

      same :
          (m : Addr)
          → (insert_at_front l.fresh (alloc l.fresh k l.heap) m).key
            ≡ (if m == l.fresh then k else (l.heap m).key)
      same m = key-insert_at_front l.fresh m (alloc l.fresh k l.heap) ∙ ground arith

  -- A key that goes takes its node out of the list.
  pub on_evict-Shape :
      (k : Str) (n : Addr) → lookup k l.nodes ≡ some n → Shape (on_evict k l) (erase n ns)
  unfolding on_evict
  on_evict-Shape k n found =
      rw (found, on_evict)
        (record {
          links =
              remove_node-Links l.heap head n ns s.links head-not-elem (omega arith) s.distinct old;
          distinct = erase-Distinct n ns s.distinct;
          allocated = λ m e. s.allocated m (ground (arith, elem-erase n m ns s.distinct));
          started = s.started;
          listed = λ j m e. ground (
            arith,
            lookup-delete k j l.nodes,
            s.listed j m,
            s.listed k n,
            elem-erase n m ns s.distinct,
            key-remove_node n m l.heap,
          );
          mapped = λ m e. rw (key-remove_node n m l.heap) (
              ground (
                arith,
                lookup-delete k (l.heap m).key l.nodes,
                s.mapped m,
                elem-erase n m ns s.distinct,
              ));
        })
    where
      old : elem n ns ≡ true
      old = (s.listed k n found).0

-- An LRU policy is valid if it has a shape; it tracks the keys of its map.
abbrev pub IsValid : Lru → Type 0
IsValid l = (ns : List Addr) × Shape l ns

on_access-IsValid : (k : Str) (l : Lru) → IsValid l → IsValid (on_access k l)
unfolding on_access
on_access-IsValid k l (ns, s) = elim (Option-cases (lookup k l.nodes)) [
  | inl e ↦ rw (e, on_access) (ns, s)
  | inr (n, e) ↦ (n ∷ erase n ns, on_access-Shape l ns s k n e)
]

on_evict-IsValid : (k : Str) (l : Lru) → IsValid l → IsValid (on_evict k l)
unfolding on_evict
on_evict-IsValid k l (ns, s) = elim (Option-cases (lookup k l.nodes)) [
  | inl e ↦ rw (e, on_evict) (ns, s)
  | inr (n, e) ↦ (erase n ns, on_evict-Shape l ns s k n e)
]

-- `Evict` answers with the key of the last node, and with nothing only if there is no node.
pub evict-Shape :
    (l : Lru) (ns : List Addr)
    → Shape l ns
    → evict l ≡ (elim ns [ [] ↦ none | n ∷ r ↦ some (l.heap (last_or n r)).key ])
unfolding evict
evict-Shape l [] s = ground (arith, s.links)
evict-Shape l (n ∷ ns) s =
    ground
      (arith, prev-tail l.heap head (n ∷ ns) s.links, elem-last_or n ns, s.allocated (last_or n ns))

has-on_access : (k j : Str) (l : Lru) → has j (on_access k l).nodes ≡ has j l.nodes
unfolding on_access
has-on_access k j l = ground arith

has-on_insert :
    (k j : Str) (l : Lru) → has j (on_insert k l).nodes ≡ ite (str_key.dec k j) true (has j l.nodes)
unfolding on_insert
has-on_insert k j l = has-insert k j l.fresh l.nodes

has-on_evict :
    (k j : Str) (l : Lru) → has j (on_evict k l).nodes ≡ ite (str_key.dec k j) false (has j l.nodes)
unfolding on_evict
has-on_evict k j l = ground (arith, has-delete k j l.nodes)

evict-some : (l : Lru) {k : Str} → IsValid l → evict l ≡ some k → has k l.nodes ≡ true
evict-some l ([], s) e = absurd (ground (arith, evict-Shape l [] s))
evict-some l (n ∷ ns, s) e =
    ground (arith, evict-Shape l (n ∷ ns) s, elem-last_or n ns, s.mapped (last_or n ns))

evict-none : (l : Lru) → IsValid l → evict l ≡ none → (j : Str) → has j l.nodes ≡ false
evict-none l ([], s) e j = elim (Option-cases (lookup j l.nodes)) [
  | inl absent ↦ rw absent refl
  | inr (n, found) ↦ absurd (ground (arith, s.listed j n found))
]
evict-none l (n ∷ ns, s) e j = absurd (ground (arith, evict-Shape l (n ∷ ns) s))

-- The linked list and its map obey the laws of an eviction policy.
pub lru_laws : Laws lru_policy
unfolding lru_policy
lru_laws = record {
  IsValid = IsValid;
  tracks = λ l j. has j l.nodes;
  on_access-IsValid = λ t k l v. on_access-IsValid k l v;
  on_insert-IsValid =
      λ t k e l absent v. (l.fresh ∷ v.0, on_insert-Shape l v.0 v.1 k (ground arith));
  on_evict-IsValid = on_evict-IsValid;
  evict-IsValid = λ l v. v;
  tracks-on_access = λ t k j l v. has-on_access k j l;
  tracks-on_insert = λ t k j e l absent v. has-on_insert k j l;
  tracks-on_evict = λ k j l v. has-on_evict k j l;
  tracks-evict = λ j l v. refl;
  evict-some = evict-some;
  evict-none = evict-none;
}

-- A cache over a new LRU policy.
unfoldable pub lru_cache : ℕ → InMemoryCache lru_policy
unfolding lru_policy
lru_cache capacity = new capacity new_lru

pub lru_cache-IsValid : (capacity : ℕ) → 0 < capacity → Valid.IsValid lru_laws (lru_cache capacity)
unfolding lru_cache lru_policy lru_laws new_lru lookup
lru_cache-IsValid capacity h =
    Valid.new-IsValid lru_laws capacity new_lru h ([], new_lru-Shape) (λ j. refl)
