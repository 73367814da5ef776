-- ===== src/Tests/Api.antt =====
-- internal/api: a codec that writes the fields after their lengths.
use distributed_caching.Prelude.{
  ℕ, ◌≡◌, refl, ap, sym, ◌∙◌, Option, none, some, [], ◌∷◌, ◌++◌, zero, suc, Str, codes, length,
  take,
}
use distributed_caching.Api.{Product, DbProduct, ProductUpdateRequest, Codec}

abbrev pub drop : ℕ → Str → Str
drop zero xs = xs
drop (suc n) [] = []
drop (suc n) (x ∷ xs) = drop n xs

take-append : (xs ys : Str) → take (length xs) (xs ++ ys) ≡ xs
take-append [] ys = refl
take-append (x ∷ xs) ys = ap (λ zs. x ∷ zs) (take-append xs ys)

drop-append : (xs ys : Str) → drop (length xs) (xs ++ ys) ≡ ys
drop-append [] ys = refl
drop-append (x ∷ xs) ys = drop-append xs ys

-- The first field of a text, and the rest.
abbrev pub field : Str → Str × Str
field [] = ([], [])
field (n ∷ bs) = (take n bs, drop n bs)

abbrev pub encode : Product → Str
encode p =
    p.price_usd ∷ p.created_at ∷ p.updated_at ∷ length p.id ∷ p.id
    ++ (length p.name ∷ p.name ++ (length p.description ∷ p.description ++ p.category))

abbrev pub decode : Str → Option Product
decode (u ∷ c ∷ t ∷ bs) =
    let a = field bs in
    let b = field a.1 in
    let d = field b.1 in
    some (record {
      id = a.0;
      name = b.0;
      description = d.0;
      price_usd = u;
      category = d.1;
      created_at = c;
      updated_at = t;
    })
decode other = none

pub decode-encode : (p : Product) → decode (encode p) ≡ some p
decode-encode p =
    let rest_of_name = length p.description ∷ p.description ++ p.category in
    let rest_of_id = length p.name ∷ p.name ++ rest_of_name in
    rw
      (
        take-append p.id rest_of_id,
        drop-append p.id rest_of_id,
        take-append p.name rest_of_name,
        drop-append p.name rest_of_name,
        take-append p.description p.category,
        drop-append p.description p.category,
      )
      refl

abbrev pub codec : Codec
codec = record {
  marshal = λ p. some (encode p);
  unmarshal = decode;
  unmarshal-marshal =
      λ p e. ap (λ o. elim o [ none ↦ none | some v ↦ decode v ]) (sym e) ∙ decode-encode p;
}

abbrev pub row : DbProduct
row = record {
  id = codes "p1";
  name = codes "pen";
  description = codes "blue";
  price_usd = 5;
  category = codes "office";
  created_at = 10;
  updated_at = 11;
}

abbrev pub request : ProductUpdateRequest
request = record {
  name = none;
  description = some (codes "red");
  price_usd = some 6;
  category = none;
}

abbrev pub new_row : DbProduct
new_row = record row { description = codes "red"; price_usd = 6 }
