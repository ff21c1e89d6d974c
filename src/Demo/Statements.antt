-- ===== src/Demo/Statements.antt =====
-- export/db.py on db/demo_pool.py: the statements that change export_jobs, their texts and
-- arguments, and what each does to the table.
use Prim.Native.String.{◌++◌ as append}
use databridge.Base.{ℕ, ◌-◌, Bool, Option, List, [], ◌∷◌, String}
use databridge.Jobs.{
  Instant, ExportJobStatus, running, completed, failed, status_text, ExportJobCreate, ExportJob,
  JobTable, minutes,
}
use databridge.Jobs.Store.{
  has_id, update_where, count_where, new_row, update_export_job_status, update_export_progress,
  update_records_total, update_external_dataset_id, update_external_asset_dataset_id,
  is_cancellable, set_cancelled, is_unresponsive, is_never_started, expire,
  stale_job_timeout_minutes,
}
use databridge.Demo.{
  Cell, text, number, instant, flag, filter_json, texts_json, rules_json, DemoPool, Mode, fetchrow,
  execute, Answer, row, status_line,
}
use databridge.Demo.Rows.{text_cell, sampling_cell, type_text, job_record}
use databridge.Demo.Dispatch.{dispatch}

-- One statement with what its function is given. The instant of an insertion is the pool's, the
-- others are the function's `datetime.now()`.
pub data Statement : Type 0 where
  insert : ExportJobCreate → String → String → String → Instant → Statement
  set_job_status : String → ExportJobStatus → Option String → Instant → Statement
  set_progress : String → ℕ → ℕ → ℕ → Instant → Statement
  set_total : String → ℕ → Statement
  set_external : String → String → Statement
  set_external_asset : String → String → Statement
  cancel : String → Statement
  expire_running : String → Instant → Statement
  expire_pending : String → Instant → Statement

-- A text of several lines.
abbrev lines : List String → String
lines [] = "\n"
lines (l ∷ ls) = append "\n        " (append l (lines ls))

unfoldable pub status_sql : ExportJobStatus → String
status_sql running =
    "UPDATE export_jobs SET status=$1, started_at=$2, last_heartbeat_at=$2 WHERE id=$3"
status_sql completed =
    "UPDATE export_jobs SET status=$1, completed_at=$2, error_message=$3 WHERE id=$4"
status_sql failed =
    "UPDATE export_jobs SET status=$1, completed_at=$2, error_message=$3 WHERE id=$4"
status_sql _ = "UPDATE export_jobs SET status=$1 WHERE id=$2"

unfoldable pub sql : Statement → String
sql (insert body org_id user_id job_id now) = lines (
    "INSERT INTO export_jobs ("
    ∷ "    org_id, user_id, datasource_type, datasource_ref, datasource_filter,"
    ∷ "    datasink_name, destination_dataset,"
    ∷ "    asset_resolution, asset_url_fields, asset_url_prefix,"
    ∷ "    asset_datasink_name, asset_dataset,"
    ∷ "    masking_rules, sampling_config, webhook_url, webhook_enabled, webhook_payload_template,"
    ∷ "    field_extraction, field_extraction_path"
    ∷ ") VALUES ($1,$2,$3,$4,$5,$6,$7,$8,$9,$10,$11,$12,$13,$14,$15,$16,$17,$18,$19)"
    ∷ "RETURNING *" ∷ [])
sql (set_job_status job_id status error_message now) = status_sql status
sql (set_progress job_id processed skipped errors now) = lines (
    "UPDATE export_jobs"
    ∷ "SET records_processed=$1, records_skipped=$2, asset_errors=$3, last_heartbeat_at=$4"
    ∷ "WHERE id=$5" ∷ [])
sql (set_total job_id total) = "UPDATE export_jobs SET records_total=$1 WHERE id=$2"
sql (set_external job_id external) = "UPDATE export_jobs SET external_dataset_id=$1 WHERE id=$2"
sql (set_external_asset job_id external) =
    "UPDATE export_jobs SET external_asset_dataset_id=$1 WHERE id=$2"
sql (cancel job_id) =
    "UPDATE export_jobs SET status='cancelled' WHERE id=$1 AND status IN ('pending','running')"
sql (expire_running org_id now) = lines (
    "UPDATE export_jobs SET status='failed', error_message='job timed out (no heartbeat)'"
    ∷ "WHERE org_id=$1" ∷ "  AND status = 'running'"
    ∷ "  AND (last_heartbeat_at IS NULL OR last_heartbeat_at < $2)" ∷ [])
sql (expire_pending org_id now) = lines (
    "UPDATE export_jobs SET status='failed', error_message='job timed out (never started)'"
    ∷ "WHERE org_id=$1" ∷ "  AND status = 'pending'" ∷ "  AND created_at < $2" ∷ [])

abbrev insert_args : ExportJob → List Cell
insert_args job =
    text job.org_id
    ∷ text job.user_id
    ∷ text (type_text job.datasource_type)
    ∷ text job.datasource_ref
    ∷ filter_json job.datasource_filter
    ∷ text job.datasink_name
    ∷ text job.destination_dataset
    ∷ flag job.asset_resolution
    ∷ texts_json job.asset_url_fields
    ∷ text job.asset_url_prefix
    ∷ text_cell job.asset_datasink_name
    ∷ text_cell job.asset_dataset
    ∷ rules_json job.masking_rules
    ∷ sampling_cell job.sampling_config
    ∷ text_cell job.webhook_url
    ∷ flag job.webhook_enabled
    ∷ text_cell job.webhook_payload_template
    ∷ flag job.field_extraction
    ∷ text job.field_extraction_path
    ∷ []

abbrev status_args : String → ExportJobStatus → Option String → Instant → List Cell
status_args job_id running message now = text "running" ∷ instant now ∷ text job_id ∷ []
status_args job_id completed message now =
    text "completed" ∷ instant now ∷ text_cell message ∷ text job_id ∷ []
status_args job_id failed message now =
    text "failed" ∷ instant now ∷ text_cell message ∷ text job_id ∷ []
status_args job_id status message now = text (status_text status) ∷ text job_id ∷ []

-- `now - 30 minutes`, which a clock that counts from 1970 is past
abbrev pub cutoff : Instant → Cell
cutoff now = instant (now - minutes stale_job_timeout_minutes)

unfoldable pub args : Statement → List Cell
args (insert body org_id user_id job_id now) = insert_args (new_row body org_id user_id job_id now)
args (set_job_status job_id status message now) = status_args job_id status message now
args (set_progress job_id processed skipped errors now) =
    number processed ∷ number skipped ∷ number errors ∷ instant now ∷ text job_id ∷ []
args (set_total job_id total) = number total ∷ text job_id ∷ []
args (set_external job_id external) = text external ∷ text job_id ∷ []
args (set_external_asset job_id external) = text external ∷ text job_id ∷ []
args (cancel job_id) = text job_id ∷ []
args (expire_running org_id now) = text org_id ∷ cutoff now ∷ []
args (expire_pending org_id now) = text org_id ∷ cutoff now ∷ []

-- The id and the instant that the pool makes for a statement, of use to an insertion only.
abbrev made_id : Statement → String
made_id (insert body org_id user_id job_id now) = job_id
made_id _ = ""

abbrev made_at : Statement → Instant
made_at (insert body org_id user_id job_id now) = now
made_at _ = 0

abbrev mode : Statement → Mode
mode (insert body org_id user_id job_id now) = fetchrow
mode _ = execute

-- The statement on the demo pool.
unfoldable pub run_on_pool : Statement → DemoPool → DemoPool × Answer
run_on_pool st pool = dispatch (sql st) (args st) (mode st) (made_id st) (made_at st) pool

-- The statement on the table.
unfoldable pub run_on_table : Statement → JobTable → JobTable
run_on_table (insert body org_id user_id job_id now) rows =
    new_row body org_id user_id job_id now ∷ rows
run_on_table (set_job_status job_id status message now) rows =
    update_export_job_status job_id status message now rows
run_on_table (set_progress job_id processed skipped errors now) rows =
    update_export_progress job_id processed skipped errors now rows
run_on_table (set_total job_id total) rows = update_records_total job_id total rows
run_on_table (set_external job_id external) rows = update_external_dataset_id job_id external rows
run_on_table (set_external_asset job_id external) rows =
    update_external_asset_dataset_id job_id external rows
run_on_table (cancel job_id) rows = update_where (is_cancellable job_id) set_cancelled rows
run_on_table (expire_running org_id now) rows =
    update_where (is_unresponsive org_id now) (expire "job timed out (no heartbeat)") rows
run_on_table (expire_pending org_id now) rows =
    update_where (is_never_started org_id now) (expire "job timed out (never started)") rows

abbrev pub updates : (ExportJob → Bool) → JobTable → Answer
updates p rows = status_line "UPDATE" (count_where p rows)

-- What the database answers: the new row, or the number of rows that were changed.
unfoldable pub answer_of : Statement → JobTable → Answer
answer_of (insert body org_id user_id job_id now) rows =
    row (job_record (new_row body org_id user_id job_id now))
answer_of (set_job_status job_id status message now) rows = updates (has_id job_id) rows
answer_of (set_progress job_id processed skipped errors now) rows = updates (has_id job_id) rows
answer_of (set_total job_id total) rows = updates (has_id job_id) rows
answer_of (set_external job_id external) rows = updates (has_id job_id) rows
answer_of (set_external_asset job_id external) rows = updates (has_id job_id) rows
answer_of (cancel job_id) rows = updates (is_cancellable job_id) rows
answer_of (expire_running org_id now) rows = updates (is_unresponsive org_id now) rows
answer_of (expire_pending org_id now) rows = updates (is_never_started org_id now) rows
