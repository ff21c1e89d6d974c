-- ===== src/Demo/Connections.antt =====
-- db/demo_pool.py: the statements on connections, from `_conn_insert` to `_conn_delete`.
use databridge.Base.{
  Bool, true, false, ◌||◌, Option, none, some, List, [], ◌∷◌, String, str_eq, if◌then◌else◌,
}
use databridge.Base.Lists.{keep_if}
use databridge.Jobs.{Instant}
use databridge.Demo.{
  Cell, null, text, instant, same_cell, DemoRecord, put, column, Records, find, replace, delete,
  values_onto, Answer, nothing, row, rows, status_line, raises,
}
use databridge.Demo.Sql.{contains, assignments}
use databridge.Demo.Jobs.{sort_records}
use databridge.Demo.Jobs.Update.{assign_all}

-- `_conn_insert`
unfoldable pub conn_insert : String → Instant → List Cell → Records → Records × Answer
conn_insert id now (owner ∷ label ∷ type ∷ role ∷ url ∷ credentials ∷ more) connections =
    let rec : DemoRecord =
      ("id", text id)
      ∷ ("owner_key", owner)
      ∷ ("label", label)
      ∷ ("type", type)
      ∷ ("role", role)
      ∷ ("connection_url", url)
      ∷ ("credentials_enc", credentials)
      ∷ ("status", text "untested")
      ∷ ("last_tested_at", null)
      ∷ ("created_at", instant now)
      ∷ ("updated_at", instant now)
      ∷ [] in
    ((id, rec) ∷ connections, row rec)
conn_insert id now _ connections = (connections, raises "IndexError")

abbrev if_owned : Cell → Option DemoRecord → Answer
if_owned owner none = nothing
if_owned owner (some rec) = if same_cell (column "owner_key" rec) owner then row rec else nothing

abbrev found : Option DemoRecord → Answer
found none = nothing
found (some rec) = row rec

abbrev owned_by : Cell → DemoRecord → Bool
owned_by owner rec = same_cell (column "owner_key" rec) owner

abbrev one_arg : List Cell → (Cell → Answer) → Answer
one_arg [] f = raises "IndexError"
one_arg (a ∷ more) f = f a

abbrev two_args : List Cell → (Cell → Cell → Answer) → Answer
two_args (a ∷ b ∷ more) f = f a b
two_args _ f = raises "IndexError"

-- `_conn_select`
unfoldable pub conn_select : String → List Cell → Records → Answer
conn_select s args connections =
    if contains "where id = $1 and owner_key = $2" s
    then two_args args (λ id owner. if_owned owner (find id connections))
    else if contains "where id = $1" s
    then one_arg args (λ id. found (find id connections))
    else if contains "where owner_key = $1" s
    then one_arg args
        (λ owner. rows (sort_records (keep_if (owned_by owner) (values_onto [] connections))))
    else nothing

abbrev is_key : String → Bool
is_key field = str_eq field "owner_key" || str_eq field "id"

abbrev set_if : Bool → String → Cell → DemoRecord → DemoRecord
set_if true k v rec = put k v rec
set_if false k v rec = rec

-- The record that `_conn_update` makes for `RETURNING *`.
unfoldable pub updated_record : String → String → List Cell → Instant → DemoRecord → DemoRecord
updated_record sql s args now rec = put "updated_at" (instant now) (
    set_if (contains "last_tested_at = null" s) "last_tested_at" null (
      set_if (contains "status = 'untested'" s) "status" (text "untested")
        (assign_all is_key (assignments sql) args rec)))

abbrev update_owned :
    String
    → String
    → List Cell
    → Instant
    → Cell
    → Cell
    → Records
    → Option DemoRecord
    → Records × Answer
update_owned sql s args now owner id connections none = (connections, nothing)
update_owned sql s args now owner id connections (some rec) =
    if same_cell (column "owner_key" rec) owner
    then (
      replace id (updated_record sql s args now rec) connections,
      row (updated_record sql s args now rec),
    )
    else (connections, nothing)

abbrev set_connection_status : Cell → Cell → Cell → Records → Option DemoRecord → Records × Answer
set_connection_status status at id connections none = (connections, status_line "UPDATE" 0)
set_connection_status status at id connections (some rec) = (
  replace id (put "last_tested_at" at (put "status" status rec)) connections,
  status_line "UPDATE" 1,
)

abbrev update_returning :
    String → String → List Cell → Instant → List Cell → Records → Records × Answer
update_returning sql s args now (owner ∷ id ∷ more) connections =
    update_owned sql s args now owner id connections (find id connections)
update_returning sql s args now _ connections = (connections, raises "IndexError")

abbrev update_status : List Cell → Records → Records × Answer
update_status (status ∷ at ∷ id ∷ more) connections =
    set_connection_status status at id connections (find id connections)
update_status _ connections = (connections, raises "IndexError")

-- `_conn_update`
unfoldable pub conn_update : String → String → List Cell → Instant → Records → Records × Answer
conn_update sql s args now connections =
    if contains "returning *" s
    then update_returning sql s args now args connections
    else update_status args connections

abbrev delete_owned : Cell → Cell → Records → Option DemoRecord → Records × Answer
delete_owned id owner connections none = (connections, status_line "DELETE" 0)
delete_owned id owner connections (some rec) =
    if same_cell (column "owner_key" rec) owner
    then (delete id connections, status_line "DELETE" 1)
    else (connections, status_line "DELETE" 0)

-- `_conn_delete`
unfoldable pub conn_delete : List Cell → Records → Records × Answer
conn_delete (id ∷ owner ∷ more) connections =
    delete_owned id owner connections (find id connections)
conn_delete _ connections = (connections, raises "IndexError")
