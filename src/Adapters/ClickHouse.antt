-- ===== src/Adapters/ClickHouse.antt =====
-- adapters.py: `ClickHouseConnectionAdapter`, its statements and how it reads the answers.
use Prim.Native.Char.{Char, code}
use databridge.Base.{
  ℕ, Bool, true, false, ◌||◌, Option, none, some, List, [], ◌∷◌, ◌++◌, String, ◌==◌, leb, ◌&&◌,
  if◌then◌else◌,
}
use databridge.Base.Text.{is_empty, concat, concat_all}
use databridge.Value.{Value, Codec, dict, Entries, entry, done}
use databridge.Sink.{Try, returns, raises}
use databridge.Jobs.{Instant}
use databridge.Adapters.Columns.{safe_ts_col, safe_search_col, safe_sort_col}
use databridge.Adapters.Rules.{query_to_sql, strip}
use databridge.Adapters.Sql.{Format, cred, where_clause, time_condition, order_by, some_condition}

-- The statement, and the user and the key of the headers, if there is a user.
pub record Request : Type 0 where
  pub sql : String
  pub user_and_key : Option (String × String)

-- A character at which `splitlines()` breaks. It takes a carriage return and the line feed behind
-- it for one, which makes no difference where empty lines are left out.
abbrev is_line_end : Char → Bool
is_line_end c =
    (leb 10 (code c) && leb (code c) 13)
    || (leb 28 (code c) && leb (code c) 30)
    || code c == 0x85
    || code c == 0x2028
    || code c == 0x2029

abbrev line_onto : Bool → Char → String × List String → String × List String
line_onto true c (l, ls) = ("", l ∷ ls)
line_onto false c (l, ls) = (String.◌∷◌ c l, ls)

-- `s.splitlines()`, with an empty line more at the end of a text that ends in a break
unfoldable pub split_lines : String → String × List String
split_lines String.[] = ("", [])
split_lines (String.◌∷◌ c s) = line_onto (is_line_end c) c (split_lines s)

abbrev keep_parsed : Option Value → List Value → List Value
keep_parsed none vs = vs
keep_parsed (some v) vs = v ∷ vs

abbrev parse_each : Codec → List String → List Value
parse_each c [] = []
parse_each c (line ∷ lines) =
    let rest = parse_each c lines in
    if is_empty (strip line) then rest else keep_parsed (c.loads (strip line)) rest

-- The loop of `preview` and `fetch_page` over the lines of the answer: those that do not parse are
-- left out.
unfoldable pub parse_rows : Codec → String → List Value
parse_rows c answer = let (l, ls) = split_lines (strip answer) in parse_each c (l ∷ ls)

-- `next(iter(row.values()))`
abbrev first_value : Value → Try Value
first_value (dict (entry k v fs)) = returns v
first_value (dict done) = raises "StopIteration"
first_value v = raises "AttributeError"

abbrev first_line : List String → Option String
first_line [] = none
first_line (line ∷ lines) =
    let rest = first_line lines in if is_empty (strip line) then rest else some (strip line)

abbrev parsed_count : (Value → Try ℕ) → Option Value → Try ℕ
parsed_count to_int none = raises "JSONDecodeError"
parsed_count to_int (some row) = elim (first_value row) [
  | returns v ↦ to_int v
  | raises e ↦ raises e
]

abbrev count_line : Codec → (Value → Try ℕ) → Option String → Try ℕ
count_line c to_int none = returns 0
count_line c to_int (some line) = parsed_count to_int (c.loads line)

-- The loop of `count`: the first line that is not empty; `to_int` is `int()`.
unfoldable pub parse_count : Codec → (Value → Try ℕ) → String → Try ℕ
parse_count c to_int answer =
    let (l, ls) = split_lines (strip answer) in count_line c to_int (first_line (l ∷ ls))

module _ (c : Codec) (f : Format) where
  -- The conditions that the three statements have in common.
  unfoldable pub conditions : Entries → String → Option Instant → Option Instant → List String
  conditions creds query start end =
      some_condition (query_to_sql query (safe_search_col creds))
      ++ (time_condition (safe_ts_col creds) " >= parseDateTimeBestEffort('"
            (λ t. concat (f.iso t) "')") start
          ++ time_condition (safe_ts_col creds) " < parseDateTimeBestEffort('"
              (λ t. concat (f.iso t) "')") end)

  -- `{database}.{table}{where}`
  unfoldable pub source : Entries → String → Option Instant → Option Instant → String
  source creds query start end = concat_all (
      cred c "database" "default" creds
      ∷ "."
      ∷ cred c "table" "llogr_events" creds
      ∷ where_clause (conditions creds query start end)
      ∷ [])

  unfoldable pub request : Entries → String → Request
  request creds sql = record {
    sql = sql;
    user_and_key =
        if is_empty (cred c "user" "" creds)
        then none
        else some (cred c "user" "" creds, cred c "password" "" creds);
  }

  -- `preview`, up to the request
  unfoldable pub preview_request :
      Entries → String → Option Instant → Option Instant → ℕ → Option String → Request
  preview_request creds query start end limit sort_by = request creds (
      concat_all (
        "SELECT * FROM "
        ∷ source creds query start end
        ∷ order_by (safe_sort_col sort_by (safe_ts_col creds)) " DESC"
        ∷ " LIMIT "
        ∷ f.decimal limit
        ∷ " FORMAT JSONEachRow"
        ∷ []))

  -- `count`
  unfoldable pub count_request : Entries → String → Option Instant → Option Instant → Request
  count_request creds query start end = request creds (
      concat_all
        ("SELECT COUNT(*) FROM " ∷ source creds query start end ∷ " FORMAT JSONEachRow" ∷ []))

  -- `fetch_page`
  unfoldable pub page_request : Entries → String → Option Instant → Option Instant → ℕ → ℕ → Request
  page_request creds query start end limit offset = request creds (
      concat_all (
        "SELECT * FROM "
        ∷ source creds query start end
        ∷ order_by (safe_ts_col creds) ""
        ∷ " LIMIT "
        ∷ f.decimal limit
        ∷ " OFFSET "
        ∷ f.decimal offset
        ∷ " FORMAT JSONEachRow"
        ∷ []))

  -- What the server does with a request: it answers a text, or the client raises.
  module _ (send : Request → Try String) where
    abbrev rows_of : Try String → Try (List Value)
    rows_of (returns answer) = returns (parse_rows c answer)
    rows_of (raises e) = raises e

    unfoldable pub preview :
        Entries → String → Option Instant → Option Instant → ℕ → Option String → Try (List Value)
    preview creds query start end limit sort_by =
        rows_of (send (preview_request creds query start end limit sort_by))

    unfoldable pub fetch_page :
        Entries → String → Option Instant → Option Instant → ℕ → ℕ → Try (List Value)
    fetch_page creds query start end limit offset =
        rows_of (send (page_request creds query start end limit offset))

    abbrev count_of : (Value → Try ℕ) → Try String → Try ℕ
    count_of to_int (returns answer) = parse_count c to_int answer
    count_of to_int (raises e) = raises e

    unfoldable pub count :
        (Value → Try ℕ) → Entries → String → Option Instant → Option Instant → Try ℕ
    count to_int creds query start end =
        count_of to_int (send (count_request creds query start end))
