-- ===== src/Connections.antt =====
-- db/connections.py: the table of stored connections, one function for each statement on it.
pub mod Owners
use databridge.Base.{
  ℕ, ◌+◌, Bool, true, false, not, ◌&&◌, ◌||◌, Option, none, some, List, [], ◌∷◌, String, str_eq,
  ltb, is_some, if◌then◌else◌,
}
use databridge.Base.Lists.{keep_if, find_first}
use databridge.Jobs.{Instant}

-- A row. The credentials are the text of their encryption.
pub record Connection : Type 0 where
  pub id : String
  pub owner_key : String
  pub label : String
  pub type : String
  pub role : String
  pub connection_url : String
  pub credentials_enc : String
  pub status : String
  pub last_tested_at : Option Instant
  pub created_at : Instant
  pub updated_at : Instant

abbrev pub ConnectionTable : Type 0
ConnectionTable = List Connection

-- `WHERE id = … AND owner_key = …`
abbrev pub is_own : String → String → Connection → Bool
is_own id owner_key row = str_eq row.owner_key owner_key && str_eq row.id id

abbrev change_own : (Connection → Connection) → Bool → Connection → Connection
change_own f true row = f row
change_own f false row = row

unfoldable pub update_rows :
    (Connection → Bool) → (Connection → Connection) → ConnectionTable → ConnectionTable
update_rows p f [] = []
update_rows p f (row ∷ rows) = change_own f (p row) row ∷ update_rows p f rows

-- `insert_connection`, with the columns that the table fills in by itself
unfoldable pub insert_connection :
    String
    → String
    → String
    → String
    → String
    → String
    → String
    → Instant
    → ConnectionTable
    → ConnectionTable × Connection
insert_connection owner_key label type role connection_url credentials_enc id now rows =
    let row : Connection = record {
      id = id;
      owner_key = owner_key;
      label = label;
      type = type;
      role = role;
      connection_url = connection_url;
      credentials_enc = credentials_enc;
      status = "untested";
      last_tested_at = none;
      created_at = now;
      updated_at = now;
    } in
    (row ∷ rows, row)

unfoldable pub get_connection : String → String → ConnectionTable → Option Connection
get_connection id owner_key rows = find_first (is_own id owner_key) rows

abbrev insert_newest : Connection → ConnectionTable → ConnectionTable
insert_newest row [] = row ∷ []
insert_newest row (r ∷ rows) =
    let rest = insert_newest row rows in
    if ltb row.created_at r.created_at then r ∷ rest else row ∷ r ∷ rows

abbrev newest_first : ConnectionTable → ConnectionTable
newest_first [] = []
newest_first (row ∷ rows) = insert_newest row (newest_first rows)

unfoldable pub list_connections : String → ConnectionTable → ConnectionTable
list_connections owner_key rows =
    newest_first (keep_if (λ row. str_eq row.owner_key owner_key) rows)

-- The `SET` clause of `update_connection`.
abbrev with_label : Option String → Connection → Connection
with_label none row = row
with_label (some label) row = record row { label = label }

abbrev with_credentials : Option String → Connection → Connection
with_credentials none row = row
with_credentials (some enc) row = record row {
  credentials_enc = enc;
  status = "untested";
  last_tested_at = none;
}

abbrev pub set_connection : Option String → Option String → Instant → Connection → Connection
set_connection label enc now row = record (with_credentials enc (with_label label row)) {
  updated_at = now;
}

abbrev pub update_own :
    Bool
    → String
    → String
    → (Connection → Connection)
    → ConnectionTable
    → ConnectionTable × Option Connection
update_own true id owner_key f rows =
    let rows' : ConnectionTable = update_rows (is_own id owner_key) f rows in
    (rows', get_connection id owner_key rows')
update_own false id owner_key f rows = (rows, get_connection id owner_key rows)

-- `update_connection`: without a change it only reads; else `RETURNING *` is the row after it.
unfoldable pub update_connection :
    String
    → String
    → Option String
    → Option String
    → Instant
    → ConnectionTable
    → ConnectionTable × Option Connection
update_connection id owner_key label enc now rows =
    update_own (is_some label || is_some enc) id owner_key (set_connection label enc now) rows

unfoldable pub delete_connection : String → String → ConnectionTable → ConnectionTable
delete_connection id owner_key rows = keep_if (λ row. not (is_own id owner_key row)) rows

unfoldable pub update_connection_status :
    String → String → Instant → ConnectionTable → ConnectionTable
update_connection_status id status now rows =
    update_rows (λ row. str_eq row.id id)
      (λ row. record row { status = status; last_tested_at = some now }) rows
