-- ===== src/Demo/Rows/Response.antt =====
-- `_row_to_response` of export/db.py, which reads a row.
use databridge.Base.{
  ℕ, Bool, false, Option, none, some, List, [], String, str_eq, then_option, if◌then◌else◌,
}
use databridge.Jobs.{
  Instant, FilterSnapshot, ExportJobStatus, pending, running, completed, failed, cancelled,
  DatasourceType, connection, system, ExportJob,
}
use databridge.Masking.{MaskingRule}
use databridge.Sampling.{SamplingConfig}
use databridge.Demo.{
  Cell, null, text, number, instant, flag, filter_json, texts_json, rules_json, sampling_json,
  DemoRecord, entry, column,
}

infixl 5 ◌>>=◌
abbrev ◌>>=◌ {ℓ κ} : {A : Type ℓ} {B : Type κ} → Option A → (A → Option B) → Option B
m >>= f = then_option m f

-- What the response's class takes for a field; `none` is its ValidationError.
abbrev a_text : Cell → Option String
a_text (text s) = some s
a_text _ = none

abbrev a_number : Cell → Option ℕ
a_number (number n) = some n
a_number _ = none

abbrev a_flag : Cell → Option Bool
a_flag (flag b) = some b
a_flag _ = none

abbrev an_instant : Cell → Option Instant
an_instant (instant t) = some t
an_instant _ = none

unfoldable pub text_or_null : Cell → Option (Option String)
text_or_null null = some none
text_or_null (text s) = some (some s)
text_or_null _ = none

unfoldable pub number_or_null : Cell → Option (Option ℕ)
number_or_null null = some none
number_or_null (number n) = some (some n)
number_or_null _ = none

unfoldable pub instant_or_null : Cell → Option (Option Instant)
instant_or_null null = some none
instant_or_null (instant t) = some (some t)
instant_or_null _ = none

-- `_parse_sampling_config`
unfoldable pub parse_sampling_config : Cell → Option (Option SamplingConfig)
parse_sampling_config null = some none
parse_sampling_config (sampling_json c) = some (some c)
parse_sampling_config _ = none

-- `_parse_masking_rules`
abbrev parse_masking_rules : Cell → Option (List MaskingRule)
parse_masking_rules null = some []
parse_masking_rules (rules_json rules) = some rules
parse_masking_rules _ = none

-- `FilterSnapshot(**(filter_raw or {}))`
abbrev parse_filter : Cell → Option FilterSnapshot
parse_filter null =
    some (record { query = ""; start = none; end = none; time_field = none; limit = 50 })
parse_filter (filter_json f) = some f
parse_filter _ = none

-- `url_fields_raw or []`
abbrev parse_url_fields : Cell → Option (List String)
parse_url_fields null = some []
parse_url_fields (texts_json fields) = some fields
parse_url_fields _ = none

-- `raw or ""`
abbrev text_or_empty : Cell → Option String
text_or_empty null = some ""
text_or_empty (text s) = some s
text_or_empty _ = none

-- `row.get("…", False)`
abbrev flag_or_false : Option Cell → Option Bool
flag_or_false none = some false
flag_or_false (some c) = a_flag c

-- `ExportJobStatus(s)`, where `none` is a ValueError
unfoldable pub status_of : String → Option ExportJobStatus
status_of s =
    if str_eq s "pending"
    then some pending
    else if str_eq s "running"
    then some running
    else if str_eq s "completed"
    then some completed
    else if str_eq s "failed"
    then some failed
    else if str_eq s "cancelled"
    then some cancelled
    else none

unfoldable pub type_of : String → Option DatasourceType
type_of s =
    if str_eq s "connection"
    then some connection
    else if str_eq s "system"
    then some system
    else none

-- `_row_to_response`: the response as a job, whose heartbeat a response does not have
unfoldable pub row_to_response : DemoRecord → Option ExportJob
row_to_response row = do
  filter ← entry "datasource_filter" row >>= parse_filter
  fields ← entry "asset_url_fields" row >>= parse_url_fields
  rules ← parse_masking_rules (column "masking_rules" row)
  sampling ← parse_sampling_config (column "sampling_config" row)
  id ← entry "id" row >>= a_text
  org_id ← entry "org_id" row >>= a_text
  user_id ← entry "user_id" row >>= a_text
  type ← entry "datasource_type" row >>= a_text >>= type_of
  ref ← entry "datasource_ref" row >>= a_text
  sink ← entry "datasink_name" row >>= a_text
  dataset ← entry "destination_dataset" row >>= a_text
  resolution ← entry "asset_resolution" row >>= a_flag
  prefix ← entry "asset_url_prefix" row >>= text_or_empty
  asset_sink ← entry "asset_datasink_name" row >>= text_or_null
  asset_set ← entry "asset_dataset" row >>= text_or_null
  status ← entry "status" row >>= a_text >>= status_of
  total ← entry "records_total" row >>= number_or_null
  processed ← entry "records_processed" row >>= a_number
  skipped ← entry "records_skipped" row >>= a_number
  errors ← entry "asset_errors" row >>= a_number
  message ← entry "error_message" row >>= text_or_null
  created ← entry "created_at" row >>= an_instant
  started ← entry "started_at" row >>= instant_or_null
  done ← entry "completed_at" row >>= instant_or_null
  url ← text_or_null (column "webhook_url" row)
  enabled ← flag_or_false (entry "webhook_enabled" row)
  template ← text_or_null (column "webhook_payload_template" row)
  extraction ← flag_or_false (entry "field_extraction" row)
  path ← text_or_empty (column "field_extraction_path" row)
  external ← text_or_null (column "external_dataset_id" row)
  external_asset ← text_or_null (column "external_asset_dataset_id" row)
  some (record {
    id = id;
    org_id = org_id;
    user_id = user_id;
    datasource_type = type;
    datasource_ref = ref;
    datasource_filter = filter;
    datasink_name = sink;
    destination_dataset = dataset;
    asset_resolution = resolution;
    asset_url_fields = fields;
    asset_url_prefix = prefix;
    asset_datasink_name = asset_sink;
    asset_dataset = asset_set;
    status = status;
    records_total = total;
    records_processed = processed;
    records_skipped = skipped;
    asset_errors = errors;
    error_message = message;
    created_at = created;
    started_at = started;
    completed_at = done;
    last_heartbeat_at = none;
    masking_rules = rules;
    sampling_config = sampling;
    webhook_url = url;
    webhook_enabled = enabled;
    webhook_payload_template = template;
    field_extraction = extraction;
    field_extraction_path = path;
    external_dataset_id = external;
    external_asset_dataset_id = external_asset;
  })
