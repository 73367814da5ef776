-- ===== src/Eviction/Indexed/Tracking.antt =====
-- internal/eviction: which keys LFU and TTLOnly track.
use distributed_caching.Prelude.{
  ◌≡◌, refl, inl, inr, Bool, true, false, none, some, Str, str_key, arith, ite, Option-cases,
}
use distributed_caching.Prelude.Dict.{lookup, has, has-insert, has-delete}
use distributed_caching.Eviction.Heap.Order.{Strict}
use distributed_caching.Eviction.Indexed.{Indexed, insert_entry, drop_entry, touch_entry, first_key}
use distributed_caching.Eviction.Indexed.Shape.{
  Shape, touch_entry-Shape, first_key-least, first_key-none,
}
use distributed_caching.Eviction.Indexed.Pushes.{insert_entry-Shape}
use distributed_caching.Eviction.Indexed.Removes.{drop_entry-Shape}

module _ {P : Type 0} (less : P → P → Bool) where
  pub has-touch_entry :
      (f : P → P) (key j : Str) (s : Indexed P)
      → has j (touch_entry less f key s).entries ≡ has j s.entries
  unfolding touch_entry
  has-touch_entry f key j s = elim (Option-cases (lookup key s.entries)) [
    | inl e ↦ rw (e, touch_entry) refl
    | inr (a, e) ↦ rw (e, touch_entry) refl
  ]

  pub has-insert_entry :
      (p : P) (key j : Str) (s : Indexed P)
      → has j (insert_entry less key p s).entries ≡ ite (str_key.dec key j) true (has j s.entries)
  unfolding insert_entry
  has-insert_entry p key j s = has-insert key j s.fresh s.entries

  pub has-drop_entry :
      (key j : Str) (s : Indexed P)
      → has j (drop_entry less key s).entries ≡ ite (str_key.dec key j) false (has j s.entries)
  unfolding drop_entry
  has-drop_entry key j s = elim (Option-cases (lookup key s.entries)) [
    | inl e ↦ rw (e, drop_entry) (ground arith)
    | inr (a, e) ↦ rw (e, drop_entry) (has-delete key j s.entries)
  ]

  module _ (o : Strict less) where
    pub touch_entry-valid :
        (f : P → P) (key : Str) (s : Indexed P)
        → Shape less s
        → Shape less (touch_entry less f key s)
    unfolding touch_entry
    touch_entry-valid f key s v = elim (Option-cases (lookup key s.entries)) [
      | inl e ↦ rw (e, touch_entry) v
      | inr (a, e) ↦ (touch_entry-Shape less o f key s v e).0
    ]

    pub insert_entry-valid :
        (p : P) (key : Str) (s : Indexed P)
        → has key s.entries ≡ false
        → Shape less s
        → Shape less (insert_entry less key p s)
    insert_entry-valid p key s untracked v = (insert_entry-Shape less key p s o v (ground arith)).0

    pub drop_entry-valid :
        (key : Str) (s : Indexed P) → Shape less s → Shape less (drop_entry less key s)
    unfolding drop_entry
    drop_entry-valid key s v = elim (Option-cases (lookup key s.entries)) [
      | inl e ↦ rw (e, drop_entry) v
      | inr (a, e) ↦ (drop_entry-Shape less o key s v e).0
    ]

    pub first_key-tracked :
        (s : Indexed P) {k : Str} → Shape less s → first_key s ≡ some k → has k s.entries ≡ true
    first_key-tracked s v e = ground (arith, (first_key-least less o s v e).1)

    pub first_key-untracked :
        (s : Indexed P) → Shape less s → first_key s ≡ none → (j : Str) → has j s.entries ≡ false
    first_key-untracked s v e j = ground (arith, first_key-none s less j v e)
