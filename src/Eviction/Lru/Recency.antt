-- ===== src/Eviction/Lru/Recency.antt =====
-- internal/eviction/lru.go: what the policy evicts, against a plain list of keys in the order of
-- their last use.
use distributed_caching.Prelude.{
  ◌≡◌, refl, ◌∙◌, sym, ap, ap₂, ◌≢◌, inl, inr, Bool, true, false, List, [], ◌∷◌, ◌==◌,
  if◌then◌else◌, arith, Option-cases, Option, none, some, Str, str_key, ite,
}
use distributed_caching.Prelude.Dict.{lookup}
use distributed_caching.Eviction.Lru.{
  Addr, Heap, Lru, alloc, new_lru, insert_at_front, remove_node, move_to_front, on_access,
  on_insert, on_evict, evict,
}
use distributed_caching.Eviction.Lru.Links.{elem, erase, last_or}
use distributed_caching.Eviction.Lru.Shape.{
  Shape, new_lru-Shape, key-insert_at_front, key-remove_node, on_access-Shape, on_insert-Shape,
  on_evict-Shape, evict-Shape,
}

-- The calls that the cache makes of its policy.
pub data Event : Type 0 where
  access_event insert_event evict_event : Str → Event

abbrev pub contains : Str → List Str → Bool
contains k [] = false
contains k (j ∷ ks) = ite (str_key.dec j k) true (contains k ks)

abbrev pub erase_key : Str → List Str → List Str
erase_key k [] = []
erase_key k (j ∷ ks) = ite (str_key.dec j k) ks (j ∷ erase_key k ks)

abbrev pub last_key : List Str → Option Str
last_key [] = none
last_key (k ∷ []) = some k
last_key (k ∷ j ∷ ks) = last_key (j ∷ ks)

-- The keys in the order of their last use, the latest first.
abbrev pub note : List Str → Event → List Str
note ks (access_event k) = if contains k ks then k ∷ erase_key k ks else ks
note ks (insert_event k) = k ∷ ks
note ks (evict_event k) = erase_key k ks

unfoldable pub recency : List Str → List Event → List Str
recency ks [] = ks
recency ks (e ∷ es) = recency (note ks e) es

-- A key is inserted only while it is not tracked.
abbrev pub IsNew : List Str → Event → Type 0
IsNew ks (insert_event k) = contains k ks ≡ false
IsNew ks _ = Unit

unfoldable pub IsLegal : List Str → List Event → Type 0
IsLegal ks [] = Unit
IsLegal ks (e ∷ es) = IsNew ks e × IsLegal (note ks e) es

abbrev pub apply : Lru → Event → Lru
apply l (access_event k) = on_access k l
apply l (insert_event k) = on_insert k l
apply l (evict_event k) = on_evict k l

unfoldable pub run : Lru → List Event → Lru
run l [] = l
run l (e ∷ es) = run (apply l e) es

abbrev keys : Heap → List Addr → List Str
keys h [] = []
keys h (n ∷ ns) = (h n).key ∷ keys h ns

keys-cong :
    (h h' : Heap) (ns : List Addr)
    → ((n : Addr) → elem n ns ≡ true → (h' n).key ≡ (h n).key)
    → keys h' ns ≡ keys h ns
keys-cong h h' [] f = refl
keys-cong h h' (n ∷ ns) f = ground (arith, f n, keys-cong h h' ns (λ m e. f m (ground arith)))

contains-keys :
    (h : Heap) (n : Addr) (ns : List Addr)
    → elem n ns ≡ true
    → contains (h n).key (keys h ns) ≡ true
contains-keys h n [] e = cc
contains-keys h n (m ∷ ns) e = ground (arith, contains-keys h n ns)

not-contains-keys :
    (h : Heap) (k : Str) (ns : List Addr)
    → ((n : Addr) → elem n ns ≡ true → (h n).key ≢ k)
    → contains k (keys h ns) ≡ false
not-contains-keys h k [] f = refl
not-contains-keys h k (m ∷ ns) f =
    ground (arith, f m, not-contains-keys h k ns (λ n e. f n (ground arith)))

keys-erase :
    (h : Heap) (n : Addr) (ns : List Addr)
    → ((m : Addr) → elem m ns ≡ true → (h m).key ≡ (h n).key → m ≡ n)
    → keys h (erase n ns) ≡ erase_key (h n).key (keys h ns)
keys-erase h n [] f = refl
keys-erase h n (m ∷ ns) f = ground (arith, f m, keys-erase h n ns (λ x e q. f x (ground arith) q))

erase_key_absent : (k : Str) (ks : List Str) → contains k ks ≡ false → erase_key k ks ≡ ks
erase_key_absent k [] e = refl
erase_key_absent k (j ∷ ks) e = ground (arith, erase_key_absent k ks)

last_key-keys :
    (h : Heap) (n : Addr) (ns : List Addr)
    → last_key (keys h (n ∷ ns)) ≡ some (h (last_or n ns)).key
last_key-keys h n [] = refl
last_key-keys h n (m ∷ ns) = last_key-keys h m ns

-- The nodes of the linked list carry these keys, in this order.
pub record Holds (l : Lru) (ks : List Str) : Type 0 where
  pub nodes : List Addr
  pub shape : Shape l nodes
  pub order : keys l.heap nodes ≡ ks

module _ {l : Lru} {ks : List Str} (r : Holds l ks) where
  open r use {nodes, shape, order}

  unknown : (k : Str) → lookup k l.nodes ≡ none → contains k ks ≡ false
  unknown k e =
      rw (← order) (not-contains-keys l.heap k nodes (λ n i q. ground (arith, shape.mapped n)))

  known : (k : Str) (n : Addr) → lookup k l.nodes ≡ some n → contains k ks ≡ true
  known k n e = rw (← order) (ground (arith, contains-keys l.heap n nodes, shape.listed k n))

  unique :
      (k : Str) (n m : Addr)
      → lookup k l.nodes ≡ some n
      → elem m nodes ≡ true
      → (l.heap m).key ≡ (l.heap n).key
      → m ≡ n
  unique k n m e i q = ground (arith, shape.mapped m, shape.mapped n, shape.listed k n)

  erased :
      (k : Str) (n : Addr)
      → lookup k l.nodes ≡ some n
      → keys l.heap (erase n nodes) ≡ erase_key k ks
  erased k n e =
      ground
        (arith, keys-erase l.heap n nodes (λ m i q. unique k n m e i q), shape.listed k n, order)

on_access-Holds :
    {l : Lru} {ks : List Str} (k : Str)
    → Holds l ks
    → Holds (on_access k l) (note ks (access_event k))
unfolding on_access move_to_front
on_access-Holds {l} {ks} k r = elim (Option-cases (lookup k l.nodes)) [
  | inl e ↦ rw (e, on_access, unknown r k e) r
  | inr (n, e) ↦
      let same : (m : Addr) → ((on_access k l).heap m).key ≡ (l.heap m).key = λ m.
        rw (e, on_access)
          (key-insert_at_front n m (remove_node n l.heap) ∙ key-remove_node n m l.heap) in
      rw (known r k n e) (record {
        nodes = n ∷ erase n r.nodes;
        shape = on_access-Shape l r.nodes r.shape k n e;
        order = ap₂ ◌∷◌ (same n ∙ (r.shape.listed k n e).1) (
            keys-cong l.heap (on_access k l).heap (erase n r.nodes) (λ m i. same m)
            ∙ erased r k n e);
      })
]

on_insert-Holds :
    {l : Lru} {ks : List Str} (k : Str)
    → contains k ks ≡ false
    → Holds l ks
    → Holds (on_insert k l) (k ∷ ks)
unfolding on_insert
on_insert-Holds {l} {ks} k fresh r = record {
  nodes = l.fresh ∷ r.nodes;
  shape = on_insert-Shape l r.nodes r.shape k absent;
  order = ap₂ ◌∷◌ (same l.fresh ∙ ground arith) (
      keys-cong l.heap (insert_at_front l.fresh (alloc l.fresh k l.heap)) r.nodes
        (λ m i. ground (arith, same m, r.shape.allocated m))
      ∙ r.order);
}
  where
    absent : lookup k l.nodes ≡ none
    absent = elim (Option-cases (lookup k l.nodes)) [
      | inl e ↦ e
      | inr (n, e) ↦ absurd (ground (arith, known r k n e))
    ]

    same :
        (m : Addr)
        → (insert_at_front l.fresh (alloc l.fresh k l.heap) m).key
          ≡ (if m == l.fresh then k else (l.heap m).key)
    same m = key-insert_at_front l.fresh m (alloc l.fresh k l.heap) ∙ ground arith

on_evict-Holds :
    {l : Lru} {ks : List Str} (k : Str) → Holds l ks → Holds (on_evict k l) (erase_key k ks)
unfolding on_evict
on_evict-Holds {l} {ks} k r = elim (Option-cases (lookup k l.nodes)) [
  | inl e ↦ rw (e, on_evict, erase_key_absent k ks (unknown r k e)) r
  | inr (n, e) ↦ record {
    nodes = erase n r.nodes;
    shape = on_evict-Shape l r.nodes r.shape k n e;
    order =
        rw (e, on_evict)
          (keys-cong l.heap (remove_node n l.heap) (erase n r.nodes)
              (λ m i. key-remove_node n m l.heap)
            ∙ erased r k n e);
  }
]

run-Holds :
    (l : Lru) (ks : List Str) (es : List Event)
    → IsLegal ks es
    → Holds l ks
    → Holds (run l es) (recency ks es)
unfolding run recency IsLegal
run-Holds l ks [] h r = r
run-Holds l ks (access_event k ∷ es) h r =
    run-Holds (on_access k l) (note ks (access_event k)) es h.1 (on_access-Holds k r)
run-Holds l ks (insert_event k ∷ es) h r =
    run-Holds (on_insert k l) (k ∷ ks) es h.1 (on_insert-Holds k h.0 r)
run-Holds l ks (evict_event k ∷ es) h r =
    run-Holds (on_evict k l) (erase_key k ks) es h.1 (on_evict-Holds k r)

evict-Holds : (l : Lru) (ks : List Str) → Holds l ks → evict l ≡ last_key ks
evict-Holds l ks r = go r.nodes r.shape r.order
  where
    go : (ns : List Addr) → Shape l ns → keys l.heap ns ≡ ks → evict l ≡ last_key ks
    go [] s e = evict-Shape l [] s ∙ ap last_key e
    go (n ∷ ns) s e = evict-Shape l (n ∷ ns) s ∙ sym (last_key-keys l.heap n ns) ∙ ap last_key e

-- After any legal sequence of calls on a new LRU policy, `Evict` answers with the key whose last
-- insertion or access lies furthest back among the keys not evicted since, and with nothing exactly
-- if there is no such key.
pub evict-run :
    (es : List Event) → IsLegal [] es → evict (run new_lru es) ≡ last_key (recency [] es)
evict-run es h =
    evict-Holds _ _
      (run-Holds new_lru [] es h (record { nodes = []; shape = new_lru-Shape; order = refl }))
