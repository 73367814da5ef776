-- ===== src/Eviction/Lru/Links.antt =====
-- internal/eviction/lru.go: the doubly linked list, as the list of the addresses between its
-- sentinels.
use distributed_caching.Prelude.{
  ◌≡◌, refl, ◌∙◌, subst, ◌≢◌, ◌⊎◌, inl, inr, Bool, true, false, List, [], ◌∷◌, ◌==◌, if◌then◌else◌,
  arith, Bool-cases,
}
use distributed_caching.Eviction.Lru.{Addr, Heap, head, tail, insert_at_front, remove_node}

abbrev pub elem : Addr → List Addr → Bool
elem n [] = false
elem n (x ∷ xs) = if n == x then true else elem n xs

abbrev pub erase : Addr → List Addr → List Addr
erase n [] = []
erase n (x ∷ xs) = if n == x then xs else x ∷ erase n xs

-- No address stands twice, and none is that of the tail sentinel.
abbrev pub Distinct : List Addr → Type 0
Distinct [] = Unit
Distinct (x ∷ xs) = (elem x xs ≡ false) × (x ≢ tail) × Distinct xs

-- From `a` on, the `next` pointers lead through the addresses to the tail, and the `prev` pointers
-- lead back.
abbrev pub Links : Heap → Addr → List Addr → Type 0
Links h a [] = ((h a).next ≡ tail) × ((h tail).prev ≡ a)
Links h a (b ∷ ns) = ((h a).next ≡ b) × ((h b).prev ≡ a) × Links h b ns

-- Pointers outside the list may change.
pub Links-frame :
    (h h' : Heap) (a : Addr) (ns : List Addr)
    → ((x : Addr) → elem x (a ∷ ns) ≡ true → (h' x).next ≡ (h x).next)
    → ((x : Addr) → (elem x ns ≡ true) ⊎ (x ≡ tail) → (h' x).prev ≡ (h x).prev)
    → Links h a ns
    → Links h' a ns
Links-frame h h' a [] f g l = (f a (ground arith) ∙ l.0, g tail (inr refl) ∙ l.1)
Links-frame h h' a (b ∷ ns) f g l = (
  f a (ground arith) ∙ l.0,
  g b (inl (ground arith)) ∙ l.1,
  Links-frame h h' b ns (λ x e. f x (ground arith)) (λ x e. g x (ground arith)) l.2,
)

prev-elem :
    (h : Heap) (a n : Addr) (ns : List Addr)
    → Links h a ns
    → elem n ns ≡ true
    → elem (h n).prev (a ∷ ns) ≡ true
prev-elem h a n [] l e = cc
prev-elem h a n (b ∷ ns) l e = ground (arith, prev-elem h b n ns l.2)

next-elem :
    (h : Heap) (a n : Addr) (ns : List Addr)
    → Links h a ns
    → elem n ns ≡ true
    → ((h n).next ≡ tail) ⊎ (elem (h n).next ns ≡ true)
next-elem h a n [] l e = cc
next-elem h a n (b ∷ []) l e = ground arith
next-elem h a n (b ∷ c ∷ ns) l e = ground (arith, next-elem h b n (c ∷ ns) l.2)

pub insert_at_front-Links :
    (h : Heap) (n : Addr) (ns : List Addr)
    → Links h head ns
    → n ≢ head
    → n ≢ tail
    → elem n ns ≡ false
    → elem head ns ≡ false
    → Distinct ns
    → Links (insert_at_front n h) head (n ∷ ns)
unfolding insert_at_front
insert_at_front-Links h n [] l p q e f d = ground arith
insert_at_front-Links h n (b ∷ ns) l p q e f d = (
  ground arith,
  ground arith,
  (
    ground arith,
    ground arith,
    Links-frame h (insert_at_front n h) b ns (λ x i. ground arith) (λ x i. ground arith) l.2,
  ),
)

-- The first address of the list goes.
remove_first-Links :
    (h : Heap) (a n : Addr) (ns : List Addr)
    → Links h a (n ∷ ns)
    → elem a (n ∷ ns) ≡ false
    → a ≢ tail
    → Distinct (n ∷ ns)
    → Links (remove_node n h) a ns
unfolding remove_node
remove_first-Links h a n [] l i j d = ground arith
remove_first-Links h a n (c ∷ ns) l i j d = (
  ground arith,
  ground arith,
  Links-frame h (remove_node n h) c ns (λ x e. ground arith) (λ x e. ground arith) l.2.2,
)

pub remove_node-Links :
    (h : Heap) (a n : Addr) (ns : List Addr)
    → Links h a ns
    → elem a ns ≡ false
    → a ≢ tail
    → Distinct ns
    → elem n ns ≡ true
    → Links (remove_node n h) a (erase n ns)
remove_node-Links h a n [] l i j d e = cc
remove_node-Links h a n (b ∷ ns) l i j d e = elim (Bool-cases (n == b)) [
  | inl here ↦
      let same : b ≡ n = ground arith in
      rw here (subst (λ x. Links (remove_node x h) a ns) same (remove_first-Links h a b ns l i j d))
  | inr later ↦ rw later (
    unfold remove_node in ground (arith, prev-elem h b n ns l.2),
    unfold remove_node in ground (arith, next-elem h b n ns l.2),
    remove_node-Links h b n ns l.2 (ground arith) (ground arith) d.2 (ground arith),
  )
]

-- The last address is the one before the tail, and there is none if that is the head.
abbrev pub last_or : Addr → List Addr → Addr
last_or a [] = a
last_or a (b ∷ ns) = last_or b ns

pub prev-tail : (h : Heap) (a : Addr) (ns : List Addr) → Links h a ns → (h tail).prev ≡ last_or a ns
prev-tail h a [] l = l.1
prev-tail h a (b ∷ ns) l = prev-tail h b ns l.2

pub elem-last_or : (b : Addr) (ns : List Addr) → elem (last_or b ns) (b ∷ ns) ≡ true
elem-last_or b [] = ground arith
elem-last_or b (c ∷ ns) = ground (arith, elem-last_or c ns)

pub elem-erase :
    (n m : Addr) (ns : List Addr)
    → Distinct ns
    → elem m (erase n ns) ≡ (if n == m then false else elem m ns)
elem-erase n m [] d = ground arith
elem-erase n m (b ∷ ns) d = ground (arith, elem-erase n m ns d.2)

pub erase-Distinct : (n : Addr) (ns : List Addr) → Distinct ns → Distinct (erase n ns)
erase-Distinct n [] d = tt
erase-Distinct n (b ∷ ns) d = ground (arith, erase-Distinct n ns d.2, elem-erase n b ns d.2)
