-- ===== src/Adapters/Trino.antt =====
-- adapters.py: `TrinoConnectionAdapter`, its statements and its loops over the pages of an answer.
pub mod Records
pub mod Paging
use databridge.Base.{
  ℕ, Bool, true, false, not, ◌&&◌, ◌||◌, Option, none, some, List, [], ◌∷◌, ◌++◌, String, ltb,
  str_eq, if◌then◌else◌,
}
use databridge.Base.Lists.{length, take}
use databridge.Base.Text.{is_empty, concat, concat_all}
use databridge.Value.{Value, Codec, dict, Entries, entry, done, put}
use databridge.Sink.{Try, returns, raises}
use databridge.Jobs.{Instant}
use databridge.Adapters.Columns.{safe_ts_col, safe_search_col, safe_sort_col}
use databridge.Adapters.Literals.{double_quotes}
use databridge.Adapters.Sql.{Format, cred, where_clause, time_condition, order_by}

-- `CAST(… AS VARCHAR) LIKE '%…%'`, from behind the opening quote
unfoldable pub like_literal : String → String
like_literal query = concat "%" (concat (double_quotes query) "%'")

unfoldable pub like_condition : String → String → String
like_condition column query =
    concat_all ("CAST(" ∷ column ∷ " AS VARCHAR) LIKE '" ∷ like_literal query ∷ [])

module _ (c : Codec) (f : Format) where
  -- `f"{catalog}.{schema_name}.{table_name}"`, where the first two are given
  unfoldable pub table_of : Entries → String
  table_of creds =
      let catalog = cred c "catalog" "" creds in
      let schema_name = cred c "schema_name" "" creds in
      let table_name = cred c "table" "events" creds in
      if is_empty catalog || is_empty schema_name
      then table_name
      else concat_all (catalog ∷ "." ∷ schema_name ∷ "." ∷ table_name ∷ [])

  unfoldable pub conditions : Entries → String → Option Instant → Option Instant → List String
  conditions creds query start end =
      (if is_empty query then [] else like_condition (safe_search_col creds) query ∷ [])
      ++ (time_condition (safe_ts_col creds) " >= TIMESTAMP '" (λ t. concat (f.stamp t) "'") start
          ++ time_condition (safe_ts_col creds) " < TIMESTAMP '" (λ t. concat (f.stamp t) "'") end)

  unfoldable pub source : Entries → String → Option Instant → Option Instant → String
  source creds query start end =
      concat (table_of creds) (where_clause (conditions creds query start end))

  unfoldable pub preview_sql :
      Entries → String → Option Instant → Option Instant → ℕ → Option String → String
  preview_sql creds query start end limit sort_by = concat_all (
      "SELECT * FROM "
      ∷ source creds query start end
      ∷ order_by (safe_sort_col sort_by (safe_ts_col creds)) " DESC"
      ∷ " LIMIT "
      ∷ f.decimal limit
      ∷ [])

  unfoldable pub count_sql : Entries → String → Option Instant → Option Instant → String
  count_sql creds query start end = concat "SELECT COUNT(*) FROM " (source creds query start end)

  unfoldable pub page_sql : Entries → String → Option Instant → Option Instant → ℕ → ℕ → String
  page_sql creds query start end limit offset = concat_all (
      "SELECT * FROM "
      ∷ source creds query start end
      ∷ " LIMIT "
      ∷ f.decimal limit
      ∷ " OFFSET "
      ∷ f.decimal offset
      ∷ [])

-- A page of an answer: the names of its columns and its rows, if it has any, the state of the
-- query, and whether there is a `nextUri`.
pub record Page : Type 0 where
  pub columns : List String
  pub rows : List (List Value)
  pub state : String
  pub next : Bool

-- `dict(zip(columns, row))`
unfoldable pub row_dict : List String → List Value → Entries → Entries
row_dict [] vs fs = fs
row_dict (k ∷ ks) [] fs = fs
row_dict (k ∷ ks) (v ∷ vs) fs = row_dict ks vs (put k v fs)

abbrev pub row_dicts : List String → List (List Value) → List Value
row_dicts columns [] = []
row_dicts columns (row ∷ rows) = dict (row_dict columns row done) ∷ row_dicts columns rows

abbrev pub columns_after : List String → Page → List String
columns_after [] page = page.columns
columns_after (k ∷ ks) page = k ∷ ks

-- `state in ("FINISHED", "FAILED") and not next_uri`
abbrev is_over : Page → Bool
is_over page = (str_eq page.state "FINISHED" || str_eq page.state "FAILED") && not page.next

unfoldable pub goes_on : Page → Bool
goes_on page = not (is_over page) && page.next

-- The `while` loop of `fetch_page`: the replies are those of the server to the requests to come,
-- and a server that answers no more makes the client raise.
unfoldable pub fetch_loop : List (Try Page) → Bool → List String → List Value → Try (List Value)
fetch_loop replies false columns results = returns results
fetch_loop [] true columns results = raises "ReadError"
fetch_loop (raises e ∷ replies) true columns results = raises e
fetch_loop (returns page ∷ replies) true columns results =
    let columns' = columns_after columns page in
    fetch_loop replies (goes_on page) columns' (results ++ row_dicts columns' page.rows)

-- `fetch_page`: the first reply is that to the statement.
unfoldable pub fetch_page : List (Try Page) → Try (List Value)
fetch_page [] = raises "ReadError"
fetch_page (raises e ∷ replies) = raises e
fetch_page (returns page ∷ replies) =
    fetch_loop replies page.next page.columns (row_dicts page.columns page.rows)

-- The loop of `preview` stops as soon as there are enough rows.
unfoldable pub preview_loop :
    ℕ → List (Try Page) → Bool → List String → List Value → Try (List Value)
preview_loop limit replies false columns results = returns results
preview_loop limit [] true columns results =
    if ltb (length results) limit then raises "ReadError" else returns results
preview_loop limit (raises e ∷ replies) true columns results =
    if ltb (length results) limit then raises e else returns results
preview_loop limit (returns page ∷ replies) true columns results =
    let columns' = columns_after columns page in
    let rest =
      preview_loop limit replies (goes_on page) columns'
        (results ++ row_dicts columns' page.rows) in
    if ltb (length results) limit then rest else returns results

abbrev pub first_rows : ℕ → Try (List Value) → Try (List Value)
first_rows limit (returns results) = returns (take limit results)
first_rows limit (raises e) = raises e

-- `preview`
unfoldable pub preview : ℕ → List (Try Page) → Try (List Value)
preview limit [] = raises "ReadError"
preview limit (raises e ∷ replies) = raises e
preview limit (returns page ∷ replies) =
    first_rows limit
      (preview_loop limit replies page.next page.columns (row_dicts page.columns page.rows))

-- The loop of `_execute`, which no caller gives a row limit.
unfoldable pub execute_loop : List (Try Page) → Bool → List (List Value) → Try (List (List Value))
execute_loop replies false rows = returns rows
execute_loop [] true rows = raises "ReadError"
execute_loop (raises e ∷ replies) true rows = raises e
execute_loop (returns page ∷ replies) true rows =
    execute_loop replies (goes_on page) (rows ++ page.rows)

-- `_execute`
unfoldable pub execute : List (Try Page) → Try (List (List Value))
execute [] = raises "ReadError"
execute (raises e ∷ replies) = raises e
execute (returns page ∷ replies) = execute_loop replies page.next page.rows

-- `int(rows[0][0])` where there are rows; `to_int` is `int()`
abbrev count_of : (Value → Try ℕ) → Try (List (List Value)) → Try ℕ
count_of to_int (raises e) = raises e
count_of to_int (returns []) = returns 0
count_of to_int (returns ([] ∷ rows)) = raises "IndexError"
count_of to_int (returns ((v ∷ vs) ∷ rows)) = to_int v

-- `count`
unfoldable pub count : (Value → Try ℕ) → List (Try Page) → Try ℕ
count to_int replies = count_of to_int (execute replies)
