-- ===== src/Database.antt =====
-- internal/db/postgres.go: the statements that the queries send, and what their answers come to. The
-- PostgreSQL server, with the driver that scans its rows, is a parameter. The text of an error that
-- wraps another one is the prefix followed by the text of the other one. The pool, the ping and the
-- migration of `New` are left out.
pub mod Update
use distributed_caching.Prelude.{
  ℕ, ◌+◌, ◌*◌, ◌-◌, ◌%◌, ◌^◌, Bool, true, false, Option, none, some, List, [], ◌∷◌, ◌++◌,
  if◌then◌else◌, Str, codes, Int64, int64,
}
use distributed_caching.Cluster.Hash.{digits}
use distributed_caching.Api.{DbProduct, ProductUpdateRequest, DbResult, found, not_found, failure}
use distributed_caching.Api

-- The arguments of a statement.
pub data SqlArg : Type 0 where
  text : Str → SqlArg
  float : ℕ → SqlArg
  integer : Int64 → SqlArg

-- What scanning the one row of a query gives: a product, `pgx.ErrNoRows`, or another error.
pub data RowResult : Type 0 where
  row : DbProduct → RowResult
  no_rows : RowResult
  row_error : Str → RowResult

-- The rows of a query, of which each is scanned, and the error at their end.
pub record Rows : Type 0 where
  pub scanned : List (Option DbProduct)
  pub failed : Bool

-- The server.
pub record Postgres : Type 1 where
  pub State : Type 0
  pub query_row : Str → List SqlArg → State → State × RowResult
  pub count_row : Str → State → Option Int64
  pub query : Str → List SqlArg → State → Option Rows

abbrev columns : Str
columns = codes "id, name, description, price_usd, category, created_at, updated_at"

abbrev pub create_text : Str
create_text =
    codes "\n\t\tINSERT INTO products (id, name, description, price_usd, category)"
    ++ codes "\n\t\tVALUES ($1, $2, $3, $4, $5)\n\t\tRETURNING "
    ++ columns
    ++ codes "\n\t"

abbrev pub get_text : Str
get_text = codes "\n\t\tSELECT " ++ columns ++ codes "\n\t\tFROM products\n\t\tWHERE id = $1\n\t"

abbrev pub count_text : Str
count_text = codes "SELECT COUNT(*) FROM products"

abbrev pub list_text : Str
list_text =
    codes "\n\t\tSELECT "
    ++ columns
    ++ codes "\n\t\tFROM products\n\t\tORDER BY created_at DESC\n\t\tLIMIT $1 OFFSET $2\n\t"

-- What `CreateProduct` answers: a product, or the text of an error.
pub data Created : Type 0 where
  created : DbProduct → Created
  create_error : Str → Created

-- The text of `pgx.ErrNoRows`.
abbrev no_rows_text : Str
no_rows_text = codes "no rows in result set"

abbrev pub created_of : RowResult → Created
created_of (row p) = created p
created_of no_rows = create_error (codes "db: create product: " ++ no_rows_text)
created_of (row_error e) = create_error (codes "db: create product: " ++ e)

-- `GetProduct` and `UpdateProduct` tell a missing row from every other error.
abbrev pub found_of : RowResult → DbResult
found_of (row p) = found p
found_of no_rows = not_found
found_of (row_error e) = failure

-- `int` arithmetic
abbrev pub dec64 : Int64 → Int64
dec64 x = (x + 2 ^ 64 - 1) % 2 ^ 64

abbrev pub mul64 : Int64 → Int64 → Int64
mul64 x y = ((x + 2 ^ 63) * (y + 2 ^ 63) + 2 ^ 63) % 2 ^ 64

-- `offset := (page - 1) * pageSize`
abbrev pub offset_of : Int64 → Int64 → Int64
offset_of page page_size = mul64 (dec64 page) page_size

-- The loop over the rows: an error of a scan ends it.
unfoldable pub scan_rows : List (Option DbProduct) → Option (List DbProduct)
scan_rows [] = some []
scan_rows (none ∷ rows) = none
scan_rows (some p ∷ rows) = elim (scan_rows rows) [ none ↦ none | some ps ↦ some (p ∷ ps) ]

-- What a list of products comes with: its error is a Boolean next to it, as in `rows.Err()`.
pub data Listed : Type 0 where
  listed : List DbProduct → Int64 → Listed
  list_error : Listed

abbrev pub listed_of : Int64 → Bool → Option (List DbProduct) → Listed
listed_of total failed none = list_error
listed_of total true (some ps) = list_error
listed_of total false (some ps) = listed ps total

-- The statement of `UpdateProduct` as it grows: the SET clauses, the arguments and the number of the
-- next one.
pub record Statement : Type 0 where
  pub set_clauses : List Str
  pub args : List SqlArg
  pub arg_idx : ℕ

abbrev pub placeholder : ℕ → Str
placeholder n = b'$' ∷ digits (n + 1) n

-- One of the four conditionals: `column` stands for the text before the placeholder.
unfoldable pub add_clause : Str → Option SqlArg → Statement → Statement
add_clause column none s = s
add_clause column (some v) s = record {
  set_clauses = s.set_clauses ++ (column ++ codes " = " ++ placeholder s.arg_idx) ∷ [];
  args = s.args ++ v ∷ [];
  arg_idx = s.arg_idx + 1;
}

abbrev pub text_arg : Option Str → Option SqlArg
text_arg none = none
text_arg (some v) = some (text v)

abbrev pub float_arg : Option ℕ → Option SqlArg
float_arg none = none
float_arg (some v) = some (float v)

-- The statement after the four conditionals.
unfoldable pub set_statement : ProductUpdateRequest → Statement
set_statement req =
    let s0 : Statement = record {
      set_clauses = codes "updated_at = NOW()" ∷ [];
      args = [];
      arg_idx = 1;
    } in
    let s1 = add_clause (codes "name") (text_arg req.name) s0 in
    let s2 = add_clause (codes "description") (text_arg req.description) s1 in
    let s3 = add_clause (codes "price_usd") (float_arg req.price_usd) s2 in
    add_clause (codes "category") (text_arg req.category) s3

-- `joinClauses`: the loop with what it has so far.
unfoldable pub join_loop : Str → List Str → Str
join_loop result [] = result
join_loop result (c ∷ cs) = join_loop (result ++ codes ", " ++ c) cs

unfoldable pub join_clauses : List Str → Str
join_clauses [] = []
join_clauses (c ∷ cs) = join_loop c cs

abbrev pub update_args : Str → ProductUpdateRequest → List SqlArg
update_args id req = (set_statement req).args ++ text id ∷ []

abbrev pub where_clause : ProductUpdateRequest → Str
where_clause req = codes "id = " ++ placeholder (set_statement req).arg_idx

abbrev pub update_text : ProductUpdateRequest → Str
update_text req =
    codes "\n\t\tUPDATE products\n\t\tSET "
    ++ join_clauses (set_statement req).set_clauses
    ++ codes "\n\t\tWHERE "
    ++ where_clause req
    ++ codes "\n\t\tRETURNING "
    ++ columns
    ++ codes "\n\t"

module _ (server : Postgres) where
  unfoldable pub create_product : DbProduct → server.State → server.State × Created
  create_product p s =
      let (s', r) =
        server.query_row create_text
          (text p.id ∷ text p.name ∷ text p.description ∷ float p.price_usd ∷ text p.category ∷ [])
          s in
      (s', created_of r)

  -- `GetProduct`: a SELECT leaves the database as it is.
  unfoldable pub get_product : Str → server.State → DbResult
  get_product id s = found_of (server.query_row get_text (text id ∷ []) s).1

  unfoldable pub update_product :
      Str → ProductUpdateRequest → server.State → server.State × DbResult
  update_product id req s =
      let (s', r) = server.query_row (update_text req) (update_args id req) s in (s', found_of r)

  unfoldable pub list_products : Int64 → Int64 → server.State → Listed
  list_products page page_size s = elim (server.count_row count_text s) [
    | none ↦ list_error
    | some total ↦
        elim (server.query list_text (integer page_size ∷ integer (offset_of page page_size) ∷ [])
          s) [
            | none ↦ list_error
            | some rows ↦ listed_of total rows.failed (scan_rows rows.scanned)
          ]
  ]

  -- The interface that the API uses.
  abbrev pub database : Api.Database
  database = record {
    State = server.State;
    get_product = get_product;
    update_product = update_product;
  }
