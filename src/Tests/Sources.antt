-- ===== src/Tests/Sources.antt =====
-- Queries, answers and listings of sources.
use databridge.Base.{
  ◌≡◌, ◌≤◌, ◌⊎◌, inr, refl, true, false, none, some, List, [], ◌∷◌, arith, str_eq, String,
}
use databridge.Base.Lists.{take, All}
use databridge.Base.Text.{concat, lower}
use databridge.Value.{Value, text, number, dict, done, entry}
use databridge.Sink.{Try, returns, raises}
use databridge.Connections.{Connection, get_connection}
use databridge.Config.{SystemSourceConfig}
use databridge.Adapters.Literals.{escape_quotes, read_literal, read_clickhouse}
use databridge.Adapters.Rules.{
  query_to_sql, full_text, strip, structured_sql, tokens_of, separator, match_rule, operator,
  value_body, rule_sql,
}
use databridge.Adapters.Rules.Harmless.{outside, is_safe_sql}
use databridge.Adapters.Rules.Conditions.{opening, query_to_sql-safe, full_text-injects}
use databridge.Adapters.Trino.{Page, like_literal, fetch_page, preview, execute}
use databridge.Adapters.Trino.Records.{Assembled}
use databridge.Adapters.Trino.Paging.{all_rows, like_literal-read, pages_end}
use databridge.Adapters.S3.{Listing, sample_bucket, sample_max_pages}
use databridge.Adapters.S3.Bounds.{IsSample, sample_bucket_bounds}
use databridge.Adapters.Schema.{infer_schema}
use databridge.Routes.Connections.Explore.{
  Source, Sources, PreviewRequest, PreviewResponse, answers, system_source, preview_connection,
}
use databridge.Routes.Connections.Explore.Own.{ReadFrom, preview_connection-own}
use databridge.Tests.Requests.{settings, ann}
use databridge.Tests.Access.{rows}

query_to_sql-safe_example :
    is_safe_sql outside "a = 'x' and positionCaseInsensitive(toString(b), 'y\\'z') > 0" ≡ true
unfolding lower query_to_sql structured_sql tokens_of strip separator match_rule operator value_body
    rule_sql
query_to_sql-safe_example =
    query_to_sql-safe "a == 'x' and b contains 'y\\'z'" "message" (ground arith)
      (inr ("a = 'x' and positionCaseInsensitive(toString(b), 'y\\'z') > 0", refl)) refl

full_text-injects_example :
    (rest : String) × (full_text "\\' OR 1=1 --" "message" ≡ opening "message" rest)
    × (read_clickhouse rest ≡ some ("\\", " OR 1=1 --') > 0"))
unfolding escape_quotes
full_text-injects_example = full_text-injects " " "OR 1=1 --" "message"

like_literal-read_example :
    read_literal (concat (like_literal "it's") " LIMIT 5") ≡ some ("%it's%", " LIMIT 5")
like_literal-read_example = like_literal-read "it's" " LIMIT 5" refl

abbrev first_page : Page
first_page = record { columns = []; rows = []; state = "QUEUED"; next = true }

abbrev data_page : Page
data_page = record {
  columns = "id" ∷ [];
  rows = (text "a" ∷ []) ∷ (text "b" ∷ []) ∷ [];
  state = "RUNNING";
  next = true;
}

abbrev last_page : Page
last_page = record {
  columns = "id" ∷ [];
  rows = (text "c" ∷ []) ∷ [];
  state = "FINISHED";
  next = false;
}

abbrev replies : List (Try Page)
replies = returns first_page ∷ returns data_page ∷ returns last_page ∷ []

pages_end_example :
    (execute replies ≡ returns (all_rows (first_page ∷ data_page ∷ last_page ∷ [])))
    × (all : List Value) × (fetch_page replies ≡ returns all)
    × Assembled [] (first_page ∷ data_page ∷ last_page ∷ []) all
    × (preview 2 replies ≡ returns (take 2 all))
pages_end_example = pages_end last_page [] refl first_page (data_page ∷ []) 2 (refl, (refl, tt))

abbrev listings : List (Try Listing)
listings =
    returns (record { contents = "a/B.JSON" ∷ "a/c.txt" ∷ []; is_truncated = true })
    ∷ raises "timeout"
    ∷ []

sample_bucket_bounds_example :
    All IsSample (sample_bucket listings).0 × ((sample_bucket listings).1 ≤ sample_max_pages)
sample_bucket_bounds_example = sample_bucket_bounds listings

abbrev source : Source
source = record {
  ping = answers tt;
  preview = λ q s e n by. answers (dict (entry "id" (number "1") done) ∷ []);
  count = λ q s e. answers 1;
  schema = λ s e nested. answers ([], 0);
}

abbrev sources : Sources
sources = record {
  of_connection = λ row t. source;
  of_system = λ src t. source;
  source_id = λ name. name;
}

abbrev asked : PreviewRequest
asked = record {
  query = "";
  start = none;
  end = none;
  time_field = none;
  sort_by = none;
  limit = 50;
}

abbrev shown : PreviewResponse
shown = record {
  results = dict (entry "id" (number "1") done) ∷ [];
  connection_id = "c1";
  total_count = 1;
  schema_fields = infer_schema (dict (entry "id" (number "1") done) ∷ []);
}

preview_connection-own_example :
    ((src : SystemSourceConfig) × ((system_source sources settings "c1" ann rows ≡ some src)
        × (str_eq src.type "dataset" ≡ false)
        × ReadFrom asked (sources.of_system src none) shown))
    ⊎ ((row : Connection) × ((get_connection "c1" "acme/ann" rows ≡ some row)
          × (str_eq row.role "sink" ≡ false)
          × ReadFrom asked (sources.of_connection row none) shown))
unfolding preview_connection system_source get_connection
preview_connection-own_example =
    preview_connection-own sources settings "c1" ann rows asked shown refl
