-- ===== src/Routes/Connections/Explore.antt =====
-- routes/connections.py: the requests that read from a source, preview and schema, and the source that
-- the tests resolve. They change nothing.
pub mod Own
use Prim.Native.Char.{Char, code}
use databridge.Base.{
  ℕ, zero, suc, ◌+◌, Bool, true, false, not, ◌&&◌, ◌||◌, Option, none, some, List, [], ◌∷◌, ◌++◌,
  map, String, str_eq, ltb, leb, is_some, ◌==◌, if◌then◌else◌,
}
use databridge.Base.Lists.{any_of, find_first, length, keep_if, take}
use databridge.Base.Text.{lower_all, is_empty, concat, lower, after_prefix}
use databridge.Value.{Value, Codec, text, dict, Entries, get}
use databridge.Extraction.{extract_field_value}
use databridge.Asset.Fields.{is_url}
use databridge.Jobs.{Instant}
use databridge.Config.{SystemSourceConfig, Settings}
use databridge.Sink.{Try, returns, raises}
use databridge.Routes.{HttpResult, ok, raise, AuthContext}
use databridge.Connections.{Connection, ConnectionTable, get_connection}
use databridge.Adapters.Schema.{SchemaFields, infer_schema}

-- What a source does when it is read, or that the call raises NotImplementedError.
pub data Reply {ℓ} (A : Type ℓ) : Type ℓ where
  answers : A → Reply A
  fails : String → Reply A
  not_implemented : Reply A

-- The calls of an adapter. `schema` is given whether it is nested.
pub record Source : Type 0 where
  pub ping : Reply (Unit {0})
  pub preview : String → Option Instant → Option Instant → ℕ → Option String → Reply (List Value)
  pub count : String → Option Instant → Option Instant → Reply ℕ
  pub schema : Option Instant → Option Instant → Bool → Reply (SchemaFields × ℕ)

-- The adapters that `get_adapter` and `apply_time_field_override` make of a row with its decrypted
-- credentials and of a system source, for a time field; and `uuid5` of a source's name.
pub record Sources : Type 0 where
  pub of_connection : Connection → Option String → Source
  pub of_system : SystemSourceConfig → Option String → Source
  pub source_id : String → String

pub record PreviewRequest : Type 0 where
  pub query : String
  pub start : Option Instant
  pub end : Option Instant
  pub time_field : Option String
  pub sort_by : Option String
  pub limit : ℕ

pub record PreviewResponse : Type 0 where
  pub results : List Value
  pub connection_id : String
  pub total_count : ℕ
  pub schema_fields : SchemaFields

-- `_safe_count`
abbrev pub safe_count : Reply ℕ → ℕ
safe_count (answers n) = n
safe_count (fails e) = 0
safe_count not_implemented = 0

module _ (sources : Sources) (settings : Settings) (id : String) (auth : AuthContext)
    (table : ConnectionTable) where
  -- `for src in system_sources: if src.id == id`
  unfoldable pub system_source : Option SystemSourceConfig
  system_source =
      find_first (λ (s : SystemSourceConfig). str_eq (sources.source_id s.name) id)
        settings.datasources

  abbrev pub previewed : ℕ → Reply (List Value) → Reply ℕ → HttpResult PreviewResponse
  previewed code' (answers results) total = ok (record {
    results = results;
    connection_id = id;
    total_count = safe_count total;
    schema_fields = infer_schema (take 20 results);
  })
  previewed code' (fails e) total = raise 502
  previewed code' not_implemented total = raise code'

  -- The status code for a source that does not implement the preview differs.
  abbrev preview_of : ℕ → PreviewRequest → Source → HttpResult PreviewResponse
  preview_of code' body source =
      previewed code' (source.preview body.query body.start body.end body.limit body.sort_by)
        (source.count body.query body.start body.end)

  abbrev preview_row : PreviewRequest → Option Connection → HttpResult PreviewResponse
  preview_row body none = raise 404
  preview_row body (some row) =
      if str_eq row.role "sink"
      then raise 400
      else preview_of 501 body (sources.of_connection row body.time_field)

  abbrev preview_source : PreviewRequest → Option SystemSourceConfig → HttpResult PreviewResponse
  preview_source body none = preview_row body (get_connection id auth.public_key table)
  preview_source body (some src) =
      if str_eq src.type "dataset"
      then raise 400
      else preview_of 502 body (sources.of_system src body.time_field)

  -- `POST /connections/{id}/preview`
  unfoldable pub preview_connection : PreviewRequest → HttpResult PreviewResponse
  preview_connection body = preview_source body system_source

  abbrev schema_answer : Reply (SchemaFields × ℕ) → HttpResult (SchemaFields × ℕ)
  schema_answer (answers r) = ok r
  schema_answer (fails e) = raise 502
  schema_answer not_implemented = raise 501

  abbrev schema_row :
      Option Instant
      → Option Instant
      → Option String
      → Option Connection
      → HttpResult (SchemaFields × ℕ)
  schema_row start end time_field none = raise 404
  schema_row start end time_field (some row) =
      if str_eq row.role "sink"
      then raise 400
      else schema_answer ((sources.of_connection row time_field).schema start end false)

  abbrev schema_source :
      Option Instant
      → Option Instant
      → Option String
      → Option SystemSourceConfig
      → HttpResult (SchemaFields × ℕ)
  schema_source start end time_field none =
      schema_row start end time_field (get_connection id auth.public_key table)
  schema_source start end time_field (some src) =
      schema_answer ((sources.of_system src time_field).schema start end false)

  -- `GET /connections/{id}/schema`
  unfoldable pub schema_connection :
      Option Instant → Option Instant → Option String → HttpResult (SchemaFields × ℕ)
  schema_connection start end time_field = schema_source start end time_field system_source

  -- The adapter that the requests below resolve: without a time field, and whatever the role is.
  abbrev resolved_row : Option Connection → HttpResult Source
  resolved_row none = raise 404
  resolved_row (some row) = ok (sources.of_connection row none)

  abbrev resolved_source : Option SystemSourceConfig → HttpResult Source
  resolved_source none = resolved_row (get_connection id auth.public_key table)
  resolved_source (some src) = ok (sources.of_system src none)

  unfoldable pub resolved : HttpResult Source
  resolved = resolved_source system_source

  abbrev on_source {ℓ} : {A : Type ℓ} → (Source → HttpResult A) → HttpResult Source → HttpResult A
  on_source f (raise n) = raise n
  on_source f (ok source) = f source
