-- ===== src/Jobs.antt =====
-- export/models.py: the jobs as the routes receive them and as the table `export_jobs` holds them.
-- A column of JSON holds the value that was written to it; an instant is a number of microseconds.
pub mod Store
pub mod Table
pub mod Sweep
pub mod Access
pub mod Cancel
pub mod Listing
pub mod Lifecycle
pub mod Overwrite
pub mod Quota
use databridge.Base.{ℕ, ◌*◌, Bool, true, false, Option, none, some, List, [], String, is_some}
use databridge.Value.{Value}
use databridge.Masking.{MaskingRule}
use databridge.Sampling.{SamplingConfig}

abbrev pub Instant : Type 0
Instant = ℕ

abbrev pub minutes : ℕ → ℕ
minutes n = n * 60000000

abbrev pub days : ℕ → ℕ
days n = n * 86400000000

pub record FilterSnapshot : Type 0 where
  pub query : String
  pub start : Option Instant
  pub end : Option Instant
  pub time_field : Option String
  pub limit : ℕ

pub data ExportJobStatus : Type 0 where
  pending running completed failed cancelled : ExportJobStatus

-- `status.value`
abbrev pub status_text : ExportJobStatus → String
status_text pending = "pending"
status_text running = "running"
status_text completed = "completed"
status_text failed = "failed"
status_text cancelled = "cancelled"

-- `status in ("pending", "running")`
abbrev pub is_active : ExportJobStatus → Bool
is_active pending = true
is_active running = true
is_active _ = false

abbrev pub is_pending : ExportJobStatus → Bool
is_pending pending = true
is_pending _ = false

abbrev pub is_running : ExportJobStatus → Bool
is_running running = true
is_running _ = false

abbrev pub is_failed : ExportJobStatus → Bool
is_failed failed = true
is_failed _ = false

abbrev pub is_completed : ExportJobStatus → Bool
is_completed completed = true
is_completed _ = false

abbrev pub is_cancelled : ExportJobStatus → Bool
is_cancelled cancelled = true
is_cancelled _ = false

pub data DatasourceType : Type 0 where
  connection system : DatasourceType

-- What a client asks for.
pub record ExportJobCreate : Type 0 where
  pub datasource_type : DatasourceType
  pub datasource_ref : String
  pub datasource_filter : FilterSnapshot
  pub datasink_name : String
  pub destination_dataset : String
  pub asset_resolution : Bool
  pub asset_url_fields : List String
  pub asset_url_prefix : String
  pub asset_datasink_name : Option String
  pub asset_dataset : Option String
  pub masking_rules : List MaskingRule
  pub sampling_config : Option SamplingConfig
  pub webhook_url : Option String
  pub webhook_enabled : Bool
  pub webhook_payload_template : Option String
  pub field_extraction : Bool
  pub field_extraction_path : String

-- A row of the table.
pub record ExportJob : Type 0 where
  pub id : String
  pub org_id : String
  pub user_id : String
  pub datasource_type : DatasourceType
  pub datasource_ref : String
  pub datasource_filter : FilterSnapshot
  pub datasink_name : String
  pub destination_dataset : String
  pub asset_resolution : Bool
  pub asset_url_fields : List String
  pub asset_url_prefix : String
  pub asset_datasink_name : Option String
  pub asset_dataset : Option String
  pub status : ExportJobStatus
  pub records_total : Option ℕ
  pub records_processed : ℕ
  pub records_skipped : ℕ
  pub asset_errors : ℕ
  pub error_message : Option String
  pub created_at : Instant
  pub started_at : Option Instant
  pub completed_at : Option Instant
  pub last_heartbeat_at : Option Instant
  pub masking_rules : List MaskingRule
  pub sampling_config : Option SamplingConfig
  pub webhook_url : Option String
  pub webhook_enabled : Bool
  pub webhook_payload_template : Option String
  pub field_extraction : Bool
  pub field_extraction_path : String
  pub external_dataset_id : Option String
  pub external_asset_dataset_id : Option String

abbrev pub JobTable : Type 0
JobTable = List ExportJob
