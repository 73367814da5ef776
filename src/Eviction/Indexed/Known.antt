-- ===== src/Eviction/Indexed/Known.antt =====
-- internal/eviction: LFU and TTLOnly against what a table says of each key that is tracked.
use distributed_caching.Prelude.{
  ◌≡◌, refl, sym, ◌∙◌, inl, inr, Bool, false, Option, none, some, if◌then◌else◌, Str, str_key, same,
  arith, Option-cases,
}
use distributed_caching.Prelude.Dict.{lookup}
use distributed_caching.Eviction.Heap.Order.{Strict}
use distributed_caching.Eviction.Indexed.{
  Indexed, new_indexed, insert_entry, drop_entry, touch_entry, first_key,
}
use distributed_caching.Eviction.Indexed.Shape.{
  Shape, view, new_indexed-Shape, touch_entry-Shape, first_key-least, first_key-none,
}
use distributed_caching.Eviction.Indexed.Pushes.{insert_entry-Shape}
use distributed_caching.Eviction.Indexed.Removes.{drop_entry-Shape}

abbrev pub Table : Type 0 → Type 0
Table P = Str → Option P

module _ {P : Type 0} where
  abbrev pub enter : Str → P → Table P → Table P
  enter key p m k = if same key k then some p else m k

  abbrev pub forget : Str → Table P → Table P
  forget key m k = if same key k then none else m k

  abbrev pub changed : (P → P) → Option P → Option P
  changed f none = none
  changed f (some p) = some (f p)

  abbrev pub change : Str → (P → P) → Table P → Table P
  change key f m k = if same key k then changed f (m k) else m k

  -- The table says exactly what the policy knows.
  abbrev pub Knows : (P → P → Bool) → Indexed P → Table P → Type 0
  Knows less s m = Shape less s × ((k : Str) → view s k ≡ m k)

  pub new_indexed-Knows : (less : P → P → Bool) (p : P) → Knows less (new_indexed p) (λ k. none)
  unfolding new_indexed lookup
  new_indexed-Knows less p = (new_indexed-Shape less p, λ k. refl)

  module _ (less : P → P → Bool) (o : Strict less) (s : Indexed P) (m : Table P)
      (w : Knows less s m) where
    pub insert_entry-Knows :
        (key : Str) (p : P) → m key ≡ none → Knows less (insert_entry less key p s) (enter key p m)
    insert_entry-Knows key p new_key =
        let done = insert_entry-Shape less key p s o w.0 (ground (arith, w.1 key)) in
        (done.0, λ k. done.1 k ∙ ground (arith, w.1 k))

    pub drop_entry-Knows : (key : Str) → Knows less (drop_entry less key s) (forget key m)
    unfolding drop_entry
    drop_entry-Knows key = elim (Option-cases (lookup key s.entries)) [
      | inl e ↦ rw (e, drop_entry) (w.0, λ k. ground (arith, w.1 k))
      | inr (a, e) ↦
          let done = drop_entry-Shape less o key s w.0 e in
          (done.0, λ k. done.1 k ∙ ground (arith, w.1 k))
    ]

    pub touch_entry-Knows :
        (f : P → P) (key : Str) → Knows less (touch_entry less f key s) (change key f m)
    unfolding touch_entry
    touch_entry-Knows f key = elim (Option-cases (lookup key s.entries)) [
      | inl e ↦ rw (e, touch_entry) (w.0, λ k. ground (arith, w.1 k))
      | inr (a, e) ↦
          let done = touch_entry-Shape less o f key s w.0 e in
          (done.0, λ k. done.1 k ∙ ground (arith, w.1 k))
    ]

    -- The key that goes first is one of the table, and no key of the table has less.
    pub first_key-Knows :
        {k : Str}
        → first_key s ≡ some k
        → (p : P) × (m k ≡ some p) × ((j : Str) (q : P) → m j ≡ some q → less q p ≡ false)
    first_key-Knows {k} e =
        let (p, here, least) = first_key-least less o s w.0 e in
        (p, sym (w.1 k) ∙ here, λ j q h. least j q (w.1 j ∙ h))

    pub first_key-empty : first_key s ≡ none → (j : Str) → m j ≡ none
    first_key-empty e j = ground (arith, w.1 j, first_key-none s less j w.0)
