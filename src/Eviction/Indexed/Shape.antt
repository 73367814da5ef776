-- ===== src/Eviction/Indexed/Shape.antt =====
-- internal/eviction: the map and the heap of LFU and TTLOnly hold the same entries.
use distributed_caching.Prelude.{
  ℕ, ◌<◌, ◌≡◌, refl, ap, ◌∙◌, inl, inr, Bool, false, Option, none, some, ◌==◌, if◌then◌else◌, Str,
  str_key, same, length, arith, Option-cases, Bool-cases, subst,
}
use distributed_caching.Prelude.Dict.{lookup}
use distributed_caching.Eviction.Heap.{Addr, Heap, slot, pay, fix}
use distributed_caching.Eviction.Heap.Order.{Strict, IsHeap, IsHeap-Hole, root_least}
use distributed_caching.Eviction.Heap.Swaps.{Placed, Holds, Shuffled}
use distributed_caching.Eviction.Heap.Sift.{Restored, sift_restores}
use distributed_caching.Eviction.Indexed.{Indexed, new_indexed, set_payload, touch_entry, first_key}

module _ {P : Type 0} where
  -- Each entry of the map stands in the heap under its key, and each of the heap in the map.
  pub record Linked (s : Indexed P) : Type 0 where
    pub placed : Placed s.heap
    pub mapped :
        (k : Str) (a : Addr)
        → lookup k s.entries ≡ some a
        → Holds s.heap a × ((s.heap.objs a).key ≡ k)
    pub listed :
        (i : ℕ)
        → i < length s.heap.slots
        → lookup (s.heap.objs (slot s.heap i)).key s.entries ≡ some (slot s.heap i)
    pub allocated : (i : ℕ) → i < length s.heap.slots → slot s.heap i < s.fresh

  pub record Shape (less : P → P → Bool) (s : Indexed P) : Type 0 where
    pub linked : Linked s
    pub ordered : IsHeap less (length s.heap.slots) (pay s.heap)

  abbrev pub payload_at : Indexed P → Option Addr → Option P
  payload_at s none = none
  payload_at s (some a) = some (s.heap.objs a).payload

  -- What the policy knows of a key.
  abbrev pub view : Indexed P → Str → Option P
  view s k = payload_at s (lookup k s.entries)

  pub new_indexed-Shape : (less : P → P → Bool) (p : P) → Shape less (new_indexed p)
  unfolding new_indexed lookup
  new_indexed-Shape less p = record {
    linked = record {
      placed = λ i l. absurd (omega arith);
      mapped = λ k a e. absurd (ground arith);
      listed = λ i l. absurd (omega arith);
      allocated = λ i l. absurd (omega arith);
    };
    ordered = λ c q l. absurd (omega arith);
  }

  -- A shuffle of the heap does not concern the map.
  pub Linked-Shuffled :
      (s : Indexed P) (h : Heap P) → Linked s → Shuffled s.heap h → Linked (record s { heap = h })
  Linked-Shuffled s h v r = record {
    placed = r.placed;
    mapped = λ k a e. let m = v.mapped k a e in (r.holds a m.0, r.key a ∙ m.1);
    listed = λ i l.
        let m = r.held i (omega (arith, r.size)) in
        rw (r.key (slot h i))
          (subst (λ a. lookup (s.heap.objs a).key s.entries ≡ some a) m.3 (v.listed m.0 m.2));
    allocated = λ i l.
        let m = r.held i (omega (arith, r.size)) in
        subst (λ a. a < s.fresh) m.3 (v.allocated m.0 m.2);
  }

  pub view-Shuffled :
      (s : Indexed P) (h : Heap P) (k : Str)
      → Shuffled s.heap h
      → view (record s { heap = h }) k ≡ view s k
  view-Shuffled s h k r = elim (Option-cases (lookup k s.entries)) [
    | inl e ↦ rw e refl
    | inr (a, e) ↦ rw e (ap some (r.payload a))
  ]

  -- What is put in order again has its shape, and knows what it knew.
  pub Restored-Shape :
      (less : P → P → Bool) (s : Indexed P) (h : Heap P)
      → Linked s
      → Restored less (length s.heap.slots) s.heap h
      → Shape less (record s { heap = h }) × ((k : Str) → view (record s { heap = h }) k ≡ view s k)
  Restored-Shape less s h v r = (
    record { linked = Linked-Shuffled s h v r.shuffled; ordered = rw r.shuffled.size r.ordered },
    λ k. view-Shuffled s h k r.shuffled,
  )

  -- The other positions of a heap hold other entries.
  pub slot-injective :
      (h : Heap P) (i j : ℕ)
      → Placed h
      → i < length h.slots
      → j < length h.slots
      → slot h i ≡ slot h j
      → i ≡ j
  slot-injective h i j v p q e = ground (arith, v i p, v j q)

  set_payload-Linked :
      (s : Indexed P) (a : Addr) (p : P)
      → Linked s
      → Linked (record s { heap = set_payload a p s.heap })
  set_payload-Linked s a p v = record {
    placed = λ i l. ground (arith, v.placed i l);
    mapped = λ k b e.
        let m = v.mapped k b e in
        ((m.0.0, ground (arith, m.0.1), m.0.2, m.0.3), ground (arith, m.1));
    listed = λ i l. ground (arith, v.listed i l);
    allocated = v.allocated;
  }

  set_payload-view :
      (s : Indexed P) (a : Addr) (p : P) (key k : Str)
      → Linked s
      → lookup key s.entries ≡ some a
      → view (record s { heap = set_payload a p s.heap }) k
        ≡ (if same key k then some p else view s k)
  set_payload-view s a p key k v found = elim (Option-cases (lookup k s.entries)) [
    | inl e ↦ rw e (ground arith)
    | inr (b, e) ↦ rw e (ground (arith, (v.mapped k b e).1, (v.mapped key a found).1))
  ]

  -- A change of one payload leaves one hole.
  pub touch_entry-Shape :
      (less : P → P → Bool) (o : Strict less) (change : P → P) (key : Str) (s : Indexed P)
      {a : Addr}
      → Shape less s
      → lookup key s.entries ≡ some a
      → Shape less (touch_entry less change key s)
        × ((k : Str)
            → view (touch_entry less change key s) k
              ≡ (if same key k then some (change (s.heap.objs a).payload) else view s k))
  unfolding touch_entry fix
  touch_entry-Shape less o change key s {a} v found =
      let p = change (s.heap.objs a).payload in
      let h = set_payload a p s.heap in
      let (i, at, l, q) = (v.linked.mapped key a found).0 in
      let linked = set_payload-Linked s a p v.linked in
      let hole =
        IsHeap-Hole less o (length h.slots) (pay s.heap) (pay h) i v.ordered
          (λ c r ne. ground (arith, slot-injective s.heap c i v.linked.placed r l)) in
      let r = sift_restores less o (length h.slots) i h l (omega arith) linked.placed hole in
      let done = Restored-Shape less (record s { heap = h }) _ linked r in
      rw (found, touch_entry, at)
        (done.0, λ k. done.1 k ∙ set_payload-view s a p key k v.linked found)

  -- The first entry has the least payload.
  pub first_key-least :
      (less : P → P → Bool) (o : Strict less) (s : Indexed P) {k : Str}
      → Shape less s
      → first_key s ≡ some k
      → (p : P) × (view s k ≡ some p) × ((j : Str) (q : P) → view s j ≡ some q → less q p ≡ false)
  unfolding first_key
  first_key-least less o s {k} v e = elim (Bool-cases (length s.heap.slots == 0)) [
    | inl nothing ↦ absurd (ground arith)
    | inr more ↦
        let first = v.linked.listed 0 (ground arith) in
        (
          (s.heap.objs (slot s.heap 0)).payload,
          ground arith,
          λ j q h. elim (Option-cases (lookup j s.entries)) [
            | inl none_there ↦ absurd (ground arith)
            | inr (b, there) ↦
                let m = (v.linked.mapped j b there).0 in
                ground (
                  arith,
                  root_least less o (length s.heap.slots) (pay s.heap) m.0 v.ordered m.2,
                  m.3,
                )
          ],
        )
  ]

  pub first_key-none :
      (s : Indexed P) (less : P → P → Bool) (j : Str)
      → Shape less s
      → first_key s ≡ none
      → lookup j s.entries ≡ none
  unfolding first_key
  first_key-none s less j v e = elim (Option-cases (lookup j s.entries)) [
    | inl nothing ↦ nothing
    | inr (b, there) ↦ let m = (v.linked.mapped j b there).0 in absurd (ground (arith, m.2))
  ]
