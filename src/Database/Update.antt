-- ===== src/Database/Update.antt =====
-- internal/db/postgres.go: what the statement of `UpdateProduct` says, read back from its text.
use distributed_caching.Prelude.{
  ℕ, ◌-◌, ◌≡◌, Option, none, some, List, [], ◌∷◌, if◌then◌else◌, ◌==◌, Str, codes, str_key, same,
  get_elem?, map, ltb, Time,
}
use distributed_caching.Api.{DbProduct, ProductUpdateRequest}
use distributed_caching.Proxy.CacheControl.{unsigned, split_commas, trim_space}
use distributed_caching.Database.{
  SqlArg, text, float, set_statement, join_clauses, update_args, where_clause,
}

abbrev pub before_byte : ℕ → Str → Str
before_byte c [] = []
before_byte c (b ∷ bs) = if b == c then [] else b ∷ before_byte c bs

abbrev pub after_byte : ℕ → Str → Str
after_byte c [] = []
after_byte c (b ∷ bs) = if b == c then bs else after_byte c bs

-- What stands on the right of `=`: the argument of a statement, or the clock of the server.
pub data Operand : Type 0 where
  argument : SqlArg → Operand
  clock : Operand

-- The argument that a number names, counted from 1.
abbrev pub numbered : List SqlArg → Option ℕ → Option Operand
numbered args none = none
numbered args (some n) =
    if ltb 0 n
    then elim (get_elem? args (n - 1)) [ none ↦ none | some a ↦ some (argument a) ]
    else none

abbrev pub read_operand : List SqlArg → Str → Option Operand
read_operand args [] = none
read_operand args (b ∷ bs) =
    if b == b'$'
    then numbered args (unsigned bs)
    else if same (b ∷ bs) (codes "NOW()")
    then some clock
    else none

-- A clause is a column, ` = ` and an operand, and nothing else.
abbrev pub read_clause : List SqlArg → Str → Option (Str × Operand)
read_clause args clause =
    let rest = after_byte b' ' clause in
    if same (before_byte b' ' rest) (codes "=")
    then elim (read_operand args (after_byte b' ' rest)) [
      | none ↦ none
      | some o ↦ some (before_byte b' ' clause, o)
    ]
    else none

-- What an assignment at a time does to the row of a product. It fails for a column that is not one
-- of these or has another type.
abbrev pub assign : Time → Str × Operand → DbProduct → Option DbProduct
assign now (column, clock) p =
    if same column (codes "updated_at")
    then some (record p { updated_at = now })
    else if same column (codes "created_at")
    then some (record p { created_at = now })
    else none
assign now (column, argument (text v)) p =
    if same column (codes "name")
    then some (record p { name = v })
    else if same column (codes "description")
    then some (record p { description = v })
    else if same column (codes "category")
    then some (record p { category = v })
    else none
assign now (column, argument (float v)) p =
    if same column (codes "price_usd") then some (record p { price_usd = v }) else none
assign now (column, argument _) p = none

abbrev pub assign_all : Time → List (Option (Str × Operand)) → DbProduct → Option DbProduct
assign_all now [] p = some p
assign_all now (none ∷ rest) p = none
assign_all now (some a ∷ rest) p = elim (assign now a p) [
  | none ↦ none
  | some q ↦ assign_all now rest q
]

-- What the SET part of a statement does to a row at a time: its clauses stand between commas.
abbrev pub run_set : Str → List SqlArg → Time → DbProduct → Option DbProduct
run_set set args now p =
    assign_all now (map (λ c. read_clause args (trim_space c)) (split_commas set)) p

abbrev pub given_or : {A : Type 0} → Option A → A → A
given_or none a = a
given_or (some b) a = b

-- The fields that the request gives, over those of the product.
abbrev pub patch : ProductUpdateRequest → DbProduct → DbProduct
patch req p = record p {
  name = given_or req.name p.name;
  description = given_or req.description p.description;
  price_usd = given_or req.price_usd p.price_usd;
  category = given_or req.category p.category;
}

-- What the statement of a request says, by the fields that the request gives.
abbrev Says : Str → ProductUpdateRequest → Time → DbProduct → Type 0
Says id req now p =
    (read_clause (update_args id req) (where_clause req) ≡ some (codes "id", argument (text id)))
    × (run_set (join_clauses (set_statement req).set_clauses) (update_args id req) now p
        ≡ some (record (patch req p) { updated_at = now }))
