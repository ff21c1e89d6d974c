-- ===== src/Jobs/Store.antt =====
-- export/db.py: the statements on the table `export_jobs`, one function for each.
use Prim.Native.String.{◌++◌ as append}
use databridge.Base.{
  ℕ, ◌+◌, ◌-◌, ◌*◌, Bool, true, false, not, ◌&&◌, ◌||◌, Option, none, some, List, [], ◌∷◌, String,
  ltb, ◌==◌, str_eq, then_option, if◌then◌else◌,
}
use databridge.Base.Lists.{length, take, drop, keep_if, find_first}
use databridge.Jobs.{
  Instant, ExportJobStatus, pending, running, completed, failed, cancelled, status_text, is_active,
  is_pending, is_running, is_cancelled, ExportJobCreate, ExportJob, JobTable, minutes,
}

-- The statement's `WHERE id = …`
abbrev pub has_id : String → ExportJob → Bool
has_id job_id row = str_eq row.id job_id

unfoldable pub fetch : String → JobTable → Option ExportJob
fetch job_id rows = find_first (has_id job_id) rows

abbrev pub change_if : Bool → (ExportJob → ExportJob) → ExportJob → ExportJob
change_if true f row = f row
change_if false f row = row

-- `UPDATE export_jobs SET … WHERE …`
unfoldable pub update_where : (ExportJob → Bool) → (ExportJob → ExportJob) → JobTable → JobTable
update_where p f [] = []
update_where p f (row ∷ rows) = change_if (p row) f row ∷ update_where p f rows

-- the number of rows, as `UPDATE n` and `COUNT(*)` give it
unfoldable pub count_where : (ExportJob → Bool) → JobTable → ℕ
count_where p rows = length (keep_if p rows)

-- Python's `a or b` on a text that may be absent
abbrev pub text_or : Option String → String → String
text_or none d = d
text_or (some s) d = if str_eq s "" then d else s

-- The row of `insert_export_job`: the defaults of the table, a fresh id, and the data's columns.
unfoldable pub new_row : ExportJobCreate → String → String → String → Instant → ExportJob
new_row body org_id user_id job_id now = record {
  id = job_id;
  org_id = org_id;
  user_id = user_id;
  datasource_type = body.datasource_type;
  datasource_ref = body.datasource_ref;
  datasource_filter = body.datasource_filter;
  datasink_name = body.datasink_name;
  destination_dataset = body.destination_dataset;
  asset_resolution = body.asset_resolution;
  asset_url_fields = body.asset_url_fields;
  asset_url_prefix = body.asset_url_prefix;
  asset_datasink_name =
      if body.asset_resolution
      then some (text_or body.asset_datasink_name body.datasink_name)
      else none;
  asset_dataset =
      if body.asset_resolution
      then some (text_or body.asset_dataset (append body.destination_dataset "_assets"))
      else none;
  status = pending;
  records_total = none;
  records_processed = 0;
  records_skipped = 0;
  asset_errors = 0;
  error_message = none;
  created_at = now;
  started_at = none;
  completed_at = none;
  last_heartbeat_at = none;
  masking_rules = body.masking_rules;
  sampling_config = body.sampling_config;
  webhook_url = body.webhook_url;
  webhook_enabled = body.webhook_enabled;
  webhook_payload_template = body.webhook_payload_template;
  field_extraction = body.field_extraction;
  field_extraction_path = body.field_extraction_path;
  external_dataset_id = none;
  external_asset_dataset_id = none;
}

-- `insert_export_job`: `job_id` is what `gen_random_uuid()` returns, and `now` what `NOW()` does.
unfoldable pub insert_export_job :
    ExportJobCreate → String → String → String → Instant → JobTable → JobTable × ExportJob
insert_export_job body org_id user_id job_id now rows =
    let row : ExportJob = new_row body org_id user_id job_id now in (row ∷ rows, row)

-- The permission test of `get_export_job`, on a row that was found.
unfoldable pub may_see : String → String → String → ExportJob → Bool
may_see org_id user_id role row =
    if str_eq role "super_admin"
    then true
    else if str_eq role "org_admin" && str_eq row.org_id org_id
    then true
    else str_eq row.org_id org_id && str_eq row.user_id user_id

unfoldable pub get_export_job : String → String → String → String → JobTable → Option ExportJob
get_export_job job_id org_id user_id role rows =
    then_option (fetch job_id rows)
      (λ row. if may_see org_id user_id role row then some row else none)

-- `update_export_job_status`, at the instant `now`
abbrev pub set_status : ExportJobStatus → Option String → Instant → ExportJob → ExportJob
set_status running error_message now row = record row {
  status = running;
  started_at = some now;
  last_heartbeat_at = some now;
}
set_status completed error_message now row = record row {
  status = completed;
  completed_at = some now;
  error_message = error_message;
}
set_status failed error_message now row = record row {
  status = failed;
  completed_at = some now;
  error_message = error_message;
}
set_status status error_message now row = record row { status = status }

unfoldable pub update_export_job_status :
    String → ExportJobStatus → Option String → Instant → JobTable → JobTable
update_export_job_status job_id status error_message now rows =
    update_where (has_id job_id) (set_status status error_message now) rows

unfoldable pub update_export_progress : String → ℕ → ℕ → ℕ → Instant → JobTable → JobTable
update_export_progress job_id processed skipped errors now rows =
    update_where (has_id job_id)
      (λ row. record row {
        records_processed = processed;
        records_skipped = skipped;
        asset_errors = errors;
        last_heartbeat_at = some now;
      })
      rows

unfoldable pub update_records_total : String → ℕ → JobTable → JobTable
update_records_total job_id total rows =
    update_where (has_id job_id) (λ row. record row { records_total = some total }) rows

unfoldable pub update_external_dataset_id : String → String → JobTable → JobTable
update_external_dataset_id job_id external_id rows =
    update_where (has_id job_id) (λ row. record row { external_dataset_id = some external_id }) rows

unfoldable pub update_external_asset_dataset_id : String → String → JobTable → JobTable
update_external_asset_dataset_id job_id external_id rows =
    update_where (has_id job_id)
      (λ row. record row { external_asset_dataset_id = some external_id }) rows

-- The permission test of `cancel_export_job`: `true` where the function returns False.
unfoldable pub cancel_forbidden : String → String → String → ExportJob → Bool
cancel_forbidden org_id user_id role row =
    if not (str_eq role "super_admin" || str_eq role "org_admin")
    then not (str_eq row.org_id org_id) || not (str_eq row.user_id user_id)
    else str_eq role "org_admin" && not (str_eq row.org_id org_id)

-- `WHERE id = … AND status IN ('pending', 'running')`
abbrev pub is_cancellable : String → ExportJob → Bool
is_cancellable job_id row = has_id job_id row && is_active row.status

abbrev pub set_cancelled : ExportJob → ExportJob
set_cancelled row = record row { status = cancelled }

unfoldable pub cancel_found :
    String → String → String → String → JobTable → Option ExportJob → JobTable × Bool
cancel_found job_id org_id user_id role rows none = (rows, false)
cancel_found job_id org_id user_id role rows (some row) =
    if cancel_forbidden org_id user_id role row
    then (rows, false)
    else if not (is_active row.status)
    then (rows, false)
    else (
      update_where (is_cancellable job_id) set_cancelled rows,
      count_where (is_cancellable job_id) rows == 1,
    )

unfoldable pub cancel_export_job : String → String → String → String → JobTable → JobTable × Bool
cancel_export_job job_id org_id user_id role rows =
    cancel_found job_id org_id user_id role rows (fetch job_id rows)

abbrev pub cancelled_status : Option ExportJob → Bool
cancelled_status none = false
cancelled_status (some row) = is_cancelled row.status

unfoldable pub is_job_cancelled : String → JobTable → Bool
is_job_cancelled job_id rows = cancelled_status (fetch job_id rows)

-- The conditions of `list_export_jobs`.
unfoldable pub listed : String → String → Option String → ExportJob → Bool
listed org_id role status_filter row =
    (str_eq role "super_admin" || str_eq row.org_id org_id) && elim status_filter [
      | none ↦ true
      | some s ↦ if str_eq s "" then true else str_eq (status_text row.status) s
    ]

-- `ORDER BY created_at DESC`; the order among equal instants, which SQL leaves open, is the table's
unfoldable pub insert_by_created : ExportJob → JobTable → JobTable
insert_by_created row [] = row ∷ []
insert_by_created row (r ∷ rows) =
    let rest = insert_by_created row rows in
    if ltb row.created_at r.created_at then r ∷ rest else row ∷ r ∷ rows

unfoldable pub order_by_created : JobTable → JobTable
unfolding insert_by_created
order_by_created [] = []
order_by_created (row ∷ rows) = insert_by_created row (order_by_created rows)

-- `list_export_jobs`: a page, which counts from 1, and the total
unfoldable pub list_export_jobs :
    String → String → ℕ → ℕ → Option String → JobTable → List ExportJob × ℕ
list_export_jobs org_id role page page_size status_filter rows =
    let matching : JobTable = keep_if (listed org_id role status_filter) rows in
    (
      take page_size (drop ((page - 1) * page_size) (order_by_created matching)),
      count_where (listed org_id role status_filter) rows,
    )

abbrev pub stale_job_timeout_minutes : ℕ
stale_job_timeout_minutes = 30

-- A running job of the organisation whose heartbeat is missing or older than the cutoff. The
-- cutoff `now - 30 minutes` is written on the other side of the comparison.
unfoldable pub is_unresponsive : String → Instant → ExportJob → Bool
is_unresponsive org_id now row =
    str_eq row.org_id org_id && is_running row.status && elim row.last_heartbeat_at [
      | none ↦ true
      | some at ↦ ltb (at + minutes stale_job_timeout_minutes) now
    ]

unfoldable pub is_never_started : String → Instant → ExportJob → Bool
is_never_started org_id now row =
    str_eq row.org_id org_id
    && is_pending row.status
    && ltb (row.created_at + minutes stale_job_timeout_minutes) now

abbrev pub expire : String → ExportJob → ExportJob
expire reason row = record row { status = failed; error_message = some reason }

unfoldable pub expire_jobs : String → Instant → JobTable → JobTable
expire_jobs org_id now rows =
    update_where (is_never_started org_id now) (expire "job timed out (never started)")
      (update_where (is_unresponsive org_id now) (expire "job timed out (no heartbeat)") rows)

abbrev pub is_active_of : String → ExportJob → Bool
is_active_of org_id row = str_eq row.org_id org_id && is_active row.status

-- `count_active_jobs_for_org`: the table after the stale jobs are failed, and the count
unfoldable pub count_active_jobs_for_org : String → Instant → JobTable → JobTable × ℕ
count_active_jobs_for_org org_id now rows =
    let rows' : JobTable = expire_jobs org_id now rows in
    (rows', count_where (is_active_of org_id) rows')
