-- ===== src/Cache/Concurrent/Deref.antt =====
-- internal/cache/cache.go: the map of pointers, read through them, under the operations on the map
-- and on the objects.
use distributed_caching.Prelude.{
  ℕ, ◌+◌, ◌<◌, ◌≡◌, ◌≢◌, refl, sym, ap, ap₂, subst, [], ◌∷◌, Option, none, some, if_pos, if_neg,
  arith, length, Str, str_key, ℕ_discrete, All, ◌∙◌,
}
use distributed_caching.Prelude.Dict.{Dict, IsMap, lookup, insert, delete}
use distributed_caching.Cache.{CacheEntry}
use distributed_caching.Cache.Concurrent.{Addr, update, deref}

abbrev Objs : Type 0
Objs = Addr → CacheEntry

abbrev pub at : Objs → Option Addr → Option CacheEntry
at o none = none
at o (some a) = some (o a)

pub lookup-deref :
    (o : Objs) (k : Str) (m : Dict Str Addr) → lookup k (deref o m) ≡ at o (lookup k m)
unfolding lookup
lookup-deref o k [] = refl
lookup-deref o k ((j, a) ∷ m) = ground (arith, lookup-deref o k m)

pub length-deref : (o : Objs) (m : Dict Str Addr) → length (deref o m) ≡ length m
length-deref o [] = refl
length-deref o ((j, a) ∷ m) = omega (arith, length-deref o m)

pub deref-delete :
    (o : Objs) (k : Str) (m : Dict Str Addr) → deref o (delete k m) ≡ delete k (deref o m)
unfolding delete
deref-delete o k [] = refl
deref-delete o k ((j, a) ∷ m) = ground (arith, deref-delete o k m)

pub deref-insert :
    (o : Objs) (k : Str) (a : Addr) (m : Dict Str Addr)
    → deref o (insert k a m) ≡ insert k (o a) (deref o m)
unfolding insert
deref-insert o k a [] = refl
deref-insert o k a ((j, b) ∷ m) = ground (arith, deref-insert o k a m)

module _ {ℓ} {A : Type ℓ} where
  pub update-same : (f : ℕ → A) {i j : ℕ} (x : A) → i ≡ j → update f i x j ≡ x
  update-same f {i} {j} x h = if_pos (ℕ_discrete i j) h x (f j)

  pub update-other : (f : ℕ → A) {i j : ℕ} (x : A) → i ≢ j → update f i x j ≡ f j
  update-other f {i} {j} x h = if_neg (ℕ_discrete i j) h x (f j)

-- A pointer of the map points to an allocated entry of its key.
abbrev pub Named : Objs → Addr → Dict Str Addr → Type 0
Named o fresh m = All (λ ((k, a) : Str × Addr). ((o a).key ≡ k) × (a < fresh)) m

-- A write to an object that the map does not hold is not seen in the map.
pub deref-update_other :
    (o : Objs) (fresh : Addr) (k : Str) (a : Addr) (e : CacheEntry) (m : Dict Str Addr)
    → (o a).key ≡ k
    → IsMap m
    → Named o fresh m
    → lookup k m ≢ some a
    → deref (update o a e) m ≡ deref o m
unfolding lookup
deref-update_other o fresh k a e [] named is_map fits other = refl
deref-update_other o fresh k a e ((j, b) ∷ m) named is_map fits other = elim (ℕ_discrete a b) [
  | yes same ↦ absurd (
      other (
        rw (if_pos _ (sym fits.0.0 ∙ ap (λ x. (o x).key) (sym same) ∙ named)) (ap some (sym same))))
  | no differ ↦ rw (if_neg _ differ) (
      ap (λ r. (j, o b) ∷ r)
        (deref-update_other o fresh k a e m named is_map.1 fits.1 (λ h. elim (str_key.dec j k) [
          | yes e ↦ cc (is_map.0, h, e)
          | no n ↦ other (rw (if_neg _ n) h)
        ])))
]

pub Named-lookup :
    (o : Objs) (fresh : Addr) (k : Str) {a : Addr} (m : Dict Str Addr)
    → Named o fresh m
    → lookup k m ≡ some a
    → ((o a).key ≡ k) × (a < fresh)
unfolding lookup
Named-lookup o fresh k [] fits held = absurd (ground arith)
Named-lookup o fresh k {a} ((j, b) ∷ m) fits held = elim (str_key.dec j k) [
  | yes same ↦
      let first : b ≡ a = ground arith in
      subst (λ x. ((o x).key ≡ k) × (x < fresh)) first (fits.0.0 ∙ same, fits.0.1)
  | no differ ↦ Named-lookup o fresh k m fits.1 (ground arith)
]

-- A write to the object of a key is the replacement of the entry of the key.
pub deref-update :
    (o : Objs) (fresh : Addr) (k : Str) (a : Addr) (e : CacheEntry) (m : Dict Str Addr)
    → IsMap m
    → Named o fresh m
    → lookup k m ≡ some a
    → deref (update o a e) m ≡ insert k e (deref o m)
unfolding lookup insert
deref-update o fresh k a e [] is_map fits held = absurd (ground arith)
deref-update o fresh k a e ((j, b) ∷ m) is_map fits held = elim (str_key.dec j k) [
  | yes same ↦
      let first : b ≡ a = ground arith in
      rw (if_pos (str_key.dec j k) same, if_pos {C = CacheEntry} (ℕ_discrete a b) (sym first))
        (ap₂ (λ i r. (i, e) ∷ r) same
          (deref-update_other o fresh k a e m (subst (λ x. (o x).key ≡ k) first (fits.0.0 ∙ same))
            is_map.1 fits.1 (λ h. cc (is_map.0, h, same))))
  | no differ ↦
      let kept : lookup k m ≡ some a = ground arith in
      let other : a ≢ b = λ h.
        differ
          (sym fits.0.0 ∙ ap (λ x. (o x).key) (sym h) ∙ (Named-lookup o fresh k m fits.1 kept).0) in
      rw (if_neg (str_key.dec j k) differ, if_neg {C = CacheEntry} (ℕ_discrete a b) other)
        (ap (λ r. (j, o b) ∷ r) (deref-update o fresh k a e m is_map.1 fits.1 kept))
]

-- A new object is not seen before the map holds it.
pub deref-update_fresh :
    (o : Objs) (fresh : Addr) (e : CacheEntry) (m : Dict Str Addr)
    → Named o fresh m
    → deref (update o fresh e) m ≡ deref o m
deref-update_fresh o fresh e [] fits = refl
deref-update_fresh o fresh e ((j, b) ∷ m) fits = ground (arith, deref-update_fresh o fresh e m)

pub delete-Named :
    (o : Objs) (fresh : Addr) (k : Str) (m : Dict Str Addr)
    → Named o fresh m
    → Named o fresh (delete k m)
unfolding delete
delete-Named o fresh k [] fits = tt
delete-Named o fresh k ((j, b) ∷ m) fits = elim (str_key.dec j k) [
  | yes same ↦ rw (if_pos _ same) (delete-Named o fresh k m fits.1)
  | no differ ↦ rw (if_neg _ differ) (fits.0, delete-Named o fresh k m fits.1)
]

-- A write that keeps the key of the object.
pub update-Named :
    (o : Objs) (fresh : Addr) (a : Addr) (e : CacheEntry) (m : Dict Str Addr)
    → e.key ≡ (o a).key
    → Named o fresh m
    → Named (update o a e) fresh m
update-Named o fresh a e [] same fits = tt
update-Named o fresh a e ((j, b) ∷ m) same fits = elim (ℕ_discrete a b) [
  | yes h ↦ (
    (ap (λ x. x.key) (update-same o e h) ∙ same ∙ ap (λ x. (o x).key) h ∙ fits.0.0, fits.0.1),
    update-Named o fresh a e m same fits.1,
  )
  | no h ↦ (
    (ap (λ x. x.key) (update-other o e h) ∙ fits.0.0, fits.0.1),
    update-Named o fresh a e m same fits.1,
  )
]

fresh-Named :
    (o : Objs) (fresh : Addr) (e : CacheEntry) (m : Dict Str Addr)
    → Named o fresh m
    → Named (update o fresh e) (fresh + 1) m
fresh-Named o fresh e [] fits = tt
fresh-Named o fresh e ((j, b) ∷ m) fits =
    let other : fresh ≢ b = λ h. omega (arith, h, fits.0.1) in
    (
      (ap (λ x. x.key) (update-other o e other) ∙ fits.0.0, omega (arith, fits.0.1)),
      fresh-Named o fresh e m fits.1,
    )

insert-Named :
    (o : Objs) (fresh : Addr) (k : Str) (a : Addr) (m : Dict Str Addr)
    → (o a).key ≡ k
    → a < fresh
    → Named o fresh m
    → Named o fresh (insert k a m)
unfolding insert
insert-Named o fresh k a [] named below fits = ((named, below), tt)
insert-Named o fresh k a ((j, b) ∷ m) named below fits = elim (str_key.dec j k) [
  | yes same ↦ rw (if_pos _ same) ((named, below), fits.1)
  | no differ ↦ rw (if_neg _ differ) (fits.0, insert-Named o fresh k a m named below fits.1)
]

-- A new object goes into the map.
pub insert_fresh-Named :
    (o : Objs) (fresh : Addr) (k : Str) (e : CacheEntry) (m : Dict Str Addr)
    → e.key ≡ k
    → Named o fresh m
    → Named (update o fresh e) (fresh + 1) (insert k fresh m)
insert_fresh-Named o fresh k e m same fits =
    insert-Named (update o fresh e) (fresh + 1) k fresh m
      (ap (λ x. x.key) (update-same o {i = fresh} e refl) ∙ same) (omega arith)
      (fresh-Named o fresh e m fits)
