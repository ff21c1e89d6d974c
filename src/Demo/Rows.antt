-- ===== src/Demo/Rows.antt =====
-- The records of db/demo_pool.py and the rows of the table: the columns that the pool keeps of a job.
pub mod Response
pub mod Back
use databridge.Base.{
  ℕ, ◌≡◌, refl, Bool, false, Option, none, some, List, [], ◌∷◌, String, str_eq, then_option,
  if◌then◌else◌,
}
use databridge.Jobs.{
  Instant, FilterSnapshot, ExportJobStatus, pending, running, completed, failed, cancelled,
  status_text, DatasourceType, connection, system, ExportJob,
}
use databridge.Masking.{MaskingRule}
use databridge.Sampling.{SamplingConfig}
use databridge.Demo.{
  Cell, null, text, number, instant, flag, filter_json, texts_json, rules_json, sampling_json,
  DemoRecord, entry, column,
}

abbrev pub text_cell : Option String → Cell
text_cell none = null
text_cell (some s) = text s

abbrev pub number_cell : Option ℕ → Cell
number_cell none = null
number_cell (some n) = number n

abbrev pub instant_cell : Option Instant → Cell
instant_cell none = null
instant_cell (some t) = instant t

abbrev pub sampling_cell : Option SamplingConfig → Cell
sampling_cell none = null
sampling_cell (some c) = sampling_json c

abbrev pub type_text : DatasourceType → String
type_text connection = "connection"
type_text system = "system"

-- The record of a job: the columns of `_job_insert`, which has none for field extraction.
unfoldable pub job_record : ExportJob → DemoRecord
job_record row =
    ("id", text row.id)
    ∷ ("org_id", text row.org_id)
    ∷ ("user_id", text row.user_id)
    ∷ ("datasource_type", text (type_text row.datasource_type))
    ∷ ("datasource_ref", text row.datasource_ref)
    ∷ ("datasource_filter", filter_json row.datasource_filter)
    ∷ ("datasink_name", text row.datasink_name)
    ∷ ("destination_dataset", text row.destination_dataset)
    ∷ ("asset_resolution", flag row.asset_resolution)
    ∷ ("asset_url_fields", texts_json row.asset_url_fields)
    ∷ ("asset_url_prefix", text row.asset_url_prefix)
    ∷ ("asset_datasink_name", text_cell row.asset_datasink_name)
    ∷ ("asset_dataset", text_cell row.asset_dataset)
    ∷ ("status", text (status_text row.status))
    ∷ ("records_total", number_cell row.records_total)
    ∷ ("records_processed", number row.records_processed)
    ∷ ("records_skipped", number row.records_skipped)
    ∷ ("asset_errors", number row.asset_errors)
    ∷ ("error_message", text_cell row.error_message)
    ∷ ("created_at", instant row.created_at)
    ∷ ("started_at", instant_cell row.started_at)
    ∷ ("completed_at", instant_cell row.completed_at)
    ∷ ("last_heartbeat_at", instant_cell row.last_heartbeat_at)
    ∷ ("masking_rules", rules_json row.masking_rules)
    ∷ ("sampling_config", sampling_cell row.sampling_config)
    ∷ ("webhook_url", text_cell row.webhook_url)
    ∷ ("webhook_enabled", flag row.webhook_enabled)
    ∷ ("webhook_payload_template", text_cell row.webhook_payload_template)
    ∷ ("external_dataset_id", text_cell row.external_dataset_id)
    ∷ ("external_asset_dataset_id", text_cell row.external_asset_dataset_id)
    ∷ []
