-- ===== src/Adapters/S3.antt =====
-- adapters.py: `S3ConnectionAdapter`, which keys it samples, which statements it gives to DuckDB, and
-- in which order.
pub mod Bounds
use databridge.Base.{
  ℕ, zero, suc, ◌+◌, Bool, true, false, not, ◌&&◌, ◌||◌, Option, none, some, List, [], ◌∷◌, ◌++◌,
  map, String, str_eq, ltb, leb, is_some, if◌then◌else◌,
}
use databridge.Base.Lists.{length, keep_if, any_of, find_first}
use databridge.Base.Text.{is_empty, concat, concat_all, rstrip_slash, lower}
use databridge.Value.{Value, Codec, Entries}
use databridge.Sink.{Try, returns, raises}
use databridge.Jobs.{Instant}
use databridge.Adapters.Columns.{safe_ts_col, safe_sort_col}
use databridge.Adapters.Sql.{Format, cred, text_or_else, where_clause, time_condition, order_by}

abbrev pub sample_max_pages : ℕ
sample_max_pages = 10

abbrev pub sample_keys_per_format : ℕ
sample_keys_per_format = 50

-- An entry of `_READERS`: the extension, the function of DuckDB and its options.
pub record Reader : Type 0 where
  pub fmt : String
  pub reader : String
  pub opts : String

abbrev ignoring_errors : String → String → Reader
ignoring_errors fmt reader = record { fmt = fmt; reader = reader; opts = ", ignore_errors=true" }

unfoldable pub readers : List Reader
readers =
    record { fmt = "parquet"; reader = "read_parquet"; opts = "" }
    ∷ ignoring_errors "jsonl" "read_json_auto"
    ∷ ignoring_errors "json" "read_json_auto"
    ∷ ignoring_errors "csv" "read_csv_auto"
    ∷ []

abbrev lower_all : String → String
lower_all String.[] = ""
lower_all (String.◌∷◌ c s) = String.◌∷◌ (lower c) (lower_all s)

-- `s.endswith(suffix)`
unfoldable pub ends_with : String → String → Bool
ends_with suffix String.[] = is_empty suffix
ends_with suffix (String.◌∷◌ c s) = str_eq suffix (String.◌∷◌ c s) || ends_with suffix s

-- `key.lower().endswith(f".{fmt}")`
unfoldable pub has_format : String → String → Bool
unfolding lower
has_format fmt key = ends_with (String.◌∷◌ "." fmt) (lower_all key)

-- A page of `list_objects_v2`.
pub record Listing : Type 0 where
  pub contents : List String
  pub is_truncated : Bool

-- `by_fmt`: the keys of each format
abbrev pub Samples : Type 0
Samples = List (String × List String)

unfoldable pub no_samples : Samples
unfolding readers
no_samples = map (λ (r : Reader). (r.fmt, [])) readers

-- The first format with room that a key ends in takes it.
unfoldable pub add_key : String → Samples → Samples
add_key key [] = []
add_key key ((fmt, keys) ∷ rest) =
    let later = add_key key rest in
    if ltb (length keys) sample_keys_per_format && has_format fmt key
    then (fmt, keys ++ key ∷ []) ∷ rest
    else (fmt, keys) ∷ later

unfoldable pub add_keys : List String → Samples → Samples
add_keys [] by_fmt = by_fmt
add_keys (key ∷ keys) by_fmt = add_keys keys (add_key key by_fmt)

abbrev is_full : String × List String → Bool
is_full (fmt, keys) = leb sample_keys_per_format (length keys)

-- The loop of `_sample_bucket`: the pages that the service answers with, or raises; the number is
-- how many requests may still be made. The second result counts those that were made.
unfoldable pub sample_loop : ℕ → List (Try Listing) → Samples → ℕ → Samples × ℕ
sample_loop zero pages by_fmt made = (by_fmt, made)
sample_loop (suc n) [] by_fmt made = (by_fmt, suc made)
sample_loop (suc n) (raises e ∷ pages) by_fmt made = (by_fmt, suc made)
sample_loop (suc n) (returns page ∷ pages) by_fmt made =
    let by_fmt' = add_keys page.contents by_fmt in
    let rest = sample_loop n pages by_fmt' (suc made) in
    if not page.is_truncated || any_of is_full by_fmt' then (by_fmt', suc made) else rest

-- `_sample_bucket`
unfoldable pub sample_bucket : List (Try Listing) → Samples × ℕ
sample_bucket pages = sample_loop sample_max_pages pages no_samples 0

abbrev samples_of : String → Samples → List String
samples_of fmt [] = []
samples_of fmt ((f, keys) ∷ rest) =
    let later = samples_of fmt rest in if str_eq f fmt then keys else later

abbrev nonempty {ℓ} : {A : Type ℓ} → List A → Bool
nonempty [] = false
nonempty (x ∷ xs) = true

-- `_ordered_readers`: the format of the first keys goes first
unfoldable pub ordered_readers : Try (List String) → List Reader
ordered_readers (raises e) = readers
ordered_readers (returns keys) =
    elim (find_first (λ (r : Reader). any_of (has_format r.fmt) keys) readers) [
      | none ↦ readers
      | some r ↦ r ∷ keep_if (λ (q : Reader). not (str_eq q.fmt r.fmt)) readers
    ]

-- `", ".join(…)`
abbrev join_comma : List String → String
join_comma [] = ""
join_comma (a ∷ []) = a
join_comma (a ∷ b ∷ more) = concat a (concat ", " (join_comma (b ∷ more)))

abbrev key_path : String → String → String
key_path bucket key = concat_all ("'s3://" ∷ bucket ∷ "/" ∷ key ∷ "'" ∷ [])

-- `key_prefix.rstrip("/") + "/" if key_prefix else ""`
unfoldable pub prefix_of : String → String
prefix_of key_prefix = if is_empty key_prefix then "" else concat (rstrip_slash key_prefix) "/"

-- `_time_where`
unfoldable pub time_where : Format → Entries → Option Instant → Option Instant → String
time_where f creds start end = where_clause (
    time_condition (safe_ts_col creds) " >= TIMESTAMP '" (λ t. concat (f.iso_spaced t) "'") start
    ++ time_condition (safe_ts_col creds) " < TIMESTAMP '" (λ t. concat (f.iso_spaced t) "'") end)

-- The files that a reader is given: the sampled keys, or all under the prefix.
abbrev sampled_files : String → List String → String
sampled_files bucket keys = concat "[" (concat (join_comma (map (key_path bucket) keys)) "]")

abbrev all_files : String → String → Reader → String
all_files bucket prefix r =
    concat_all ("'s3://" ∷ bucket ∷ "/" ∷ prefix ∷ "**/*." ∷ r.fmt ∷ "'" ∷ [])

abbrev scan_sql : String → Reader → String → String → String
scan_sql what r files tail = concat_all (what ∷ r.reader ∷ "(" ∷ files ∷ r.opts ∷ ")" ∷ tail ∷ [])

abbrev has_samples : Samples → Reader → Bool
has_samples by_fmt r = nonempty (samples_of r.fmt by_fmt)

-- The statements that `_scan` tries, one after the other: on the sampled keys of the formats that
-- have some, or, if there are none, on all files of each format.
unfoldable pub scan_statements : String → String → Samples → String → List String
scan_statements bucket prefix by_fmt tail =
    let found = keep_if (has_samples by_fmt) readers in
    if nonempty found
    then map
        (λ (r : Reader).
          scan_sql "SELECT * FROM " r (sampled_files bucket (samples_of r.fmt by_fmt)) tail)
        found
    else map (λ (r : Reader). scan_sql "SELECT * FROM " r (all_files bucket prefix r) tail) readers

-- The first statement that DuckDB answers; none at all give no rows.
unfoldable pub first_answer {ℓ} : {A : Type ℓ} → (String → Try A) → A → List String → A
first_answer run default [] = default
first_answer run default (sql ∷ sqls) = elim (run sql) [
  | returns a ↦ a
  | raises e ↦ first_answer run default sqls
]

module _ (c : Codec) (f : Format) (bucket key_prefix : String) where
  -- What follows the files in the statements of `preview` and `fetch_page`.
  unfoldable pub preview_tail :
      Entries → Option Instant → Option Instant → ℕ → Option String → String
  preview_tail creds start end limit sort_by = concat_all (
      time_where f creds start end
      ∷ order_by (safe_sort_col sort_by (safe_ts_col creds)) " DESC"
      ∷ " LIMIT "
      ∷ f.decimal limit
      ∷ [])

  unfoldable pub page_tail : Entries → Option Instant → Option Instant → ℕ → ℕ → String
  page_tail creds start end limit offset = concat_all (
      time_where f creds start end
      ∷ order_by (safe_ts_col creds) ""
      ∷ " LIMIT "
      ∷ f.decimal limit
      ∷ " OFFSET "
      ∷ f.decimal offset
      ∷ [])

  -- What the bucket's listing and DuckDB answer; a scan that takes too long is not among it.
  module _ (pages : List (Try Listing)) (run : String → Try (List Value)) where
    unfoldable pub preview :
        Entries → Option Instant → Option Instant → ℕ → Option String → List Value
    preview creds start end limit sort_by = first_answer run [] (
        scan_statements bucket (prefix_of key_prefix) (sample_bucket pages).0
          (preview_tail creds start end limit sort_by))

    unfoldable pub fetch_page : Entries → Option Instant → Option Instant → ℕ → ℕ → List Value
    fetch_page creds start end limit offset = first_answer run [] (
        scan_statements bucket (prefix_of key_prefix) (sample_bucket pages).0
          (page_tail creds start end limit offset))

  unfoldable pub count_statements :
      Entries → Option Instant → Option Instant → Try (List String) → List String
  count_statements creds start end keys =
      map
        (λ (r : Reader).
          scan_sql "SELECT COUNT(*) FROM " r (all_files bucket (prefix_of key_prefix) r)
            (time_where f creds start end))
        (ordered_readers keys)

  unfoldable pub count :
      (String → Try ℕ) → Entries → Option Instant → Option Instant → Try (List String) → ℕ
  count run creds start end keys = first_answer run 0 (count_statements creds start end keys)
