-- ===== src/Routes/ExportJobs.antt =====
-- routes/export_jobs.py: creating, listing, reading, retrying, cancelling and downloading jobs.
pub mod Quota
pub mod Retry
pub mod Answers
use Prim.Native.String.{◌++◌ as append}
use databridge.Base.{
  ℕ, ◌≡◌, Bool, true, false, not, ◌&&◌, ◌||◌, Option, none, some, List, [], ◌∷◌, ◌++◌, map, String,
  str_eq, leb, is_some, or_else, then_option, if◌then◌else◌,
}
use databridge.Base.Text.{rstrip_slash, is_empty, is_blank}
use databridge.Config.{Settings, DatasinkConfig, find_datasink, is_local_sink, is_s3_sink}
use databridge.Jobs.{
  Instant, ExportJobCreate, ExportJob, JobTable, is_failed, is_completed, ExportJobStatus,
}
use databridge.Jobs.Store.{
  insert_export_job, get_export_job, list_export_jobs, cancel_export_job, count_active_jobs_for_org,
}
use databridge.Routes.{HttpResult, ok, raise, AuthContext, App, ArqPool}

-- `ExportJobResponse`: the columns of the row and the two links
pub record ExportJobResponse : Type 0 where
  pub job : ExportJob
  pub open job use *
  pub download_url : String
  pub assets_download_url : Option String

abbrev nonempty : Option String → Bool
nonempty none = false
nonempty (some s) = not (is_empty s)

-- `f"{base}{path}" if base else path`
abbrev on_base : String → String → String
on_base base path = if is_empty base then path else append base path

abbrev download_path : ExportJob → String
download_path job = append "/api/v1/export-jobs/" (append job.id "/download")

abbrev local_assets_url : Settings → ExportJob → String → Option String
local_assets_url settings job base =
    if job.asset_resolution && nonempty job.asset_datasink_name
    then then_option (find_datasink settings (or_else job.asset_datasink_name "")) (λ asset_cfg.
      if is_local_sink asset_cfg.type
      then some (on_base base (append (download_path job) "?assets=true"))
      else none)
    else none

abbrev mock_assets_url : Settings → ExportJob → String → Option String
mock_assets_url settings job sink_base =
    if job.asset_resolution && nonempty job.external_asset_dataset_id
    then some (
        append
          (or_else
            (then_option job.asset_datasink_name (λ name.
              then_option (find_datasink settings name) (λ cfg. some (rstrip_slash cfg.url))))
            sink_base)
          (append "/_mock/datasets/" (or_else job.external_asset_dataset_id "")))
    else none

abbrev with_links : ExportJob → String → Option String → ExportJobResponse
with_links job download assets = record {
  job = job;
  download_url = download;
  assets_download_url = assets;
}

abbrev links_of : Settings → ExportJob → Option DatasinkConfig → ExportJobResponse
links_of settings job none = with_links job "" none
links_of settings job (some cfg) =
    let base = rstrip_slash settings.server.public_url in
    let sink_base = rstrip_slash cfg.url in
    if is_local_sink cfg.type
    then with_links job (on_base base (download_path job)) (local_assets_url settings job base)
    else if str_eq cfg.type "dataset-mock"
    then with_links job
        (if nonempty job.external_dataset_id
          then append sink_base (append "/_mock/datasets/" (or_else job.external_dataset_id ""))
          else append sink_base "/_mock/datasets")
        (mock_assets_url settings job sink_base)
    else if str_eq cfg.type "annotator-mock"
    then with_links job
        (if nonempty job.external_dataset_id
          then append sink_base
              (append "/api/v0/statistics/task/" (or_else job.external_dataset_id ""))
          else append sink_base "/api/v0/tasks")
        none
    else if is_s3_sink cfg.type
    then with_links job (on_base base (download_path job)) none
    else with_links job cfg.url none

-- `_with_download_urls`
unfoldable pub with_download_urls : Settings → ExportJob → ExportJobResponse
with_download_urls settings job = links_of settings job (find_datasink settings job.datasink_name)

-- `ExportJobCreate._validate_field_extraction`: `false` is a ValueError, answered with 422
unfoldable pub field_extraction_valid : ExportJobCreate → Bool
field_extraction_valid body = not (body.field_extraction && is_blank body.field_extraction_path)

-- From the queue's checks on, what `create_export_job` and `retry_export_job` have in common.
unfoldable pub submit :
    Settings
    → ExportJobCreate
    → AuthContext
    → ArqPool
    → String
    → Instant
    → App
    → App × HttpResult ExportJobResponse
submit settings body auth arq job_id now app =
    if not arq.present
    then (app, raise 503)
    else if not arq.pings
    then (app, raise 503)
    else (let (rows, job) = insert_export_job body auth.org_id auth.user_id job_id now app.jobs in
        if arq.enqueues
        then (
          record app { jobs = rows; queue = app.queue ++ job_id ∷ [] },
          ok (with_download_urls settings job),
        )
        else (record app { jobs = rows }, raise 503))

-- The per-organisation limit, with the clean-up that comes with the count.
unfoldable pub within_quota :
    Settings
    → AuthContext
    → Instant
    → App
    → (App → App × HttpResult ExportJobResponse)
    → App × HttpResult ExportJobResponse
within_quota settings auth now app next =
    let (rows, active) = count_active_jobs_for_org auth.org_id now app.jobs in
    let app' : App = record app { jobs = rows } in
    if leb settings.export.max_concurrent_jobs_per_org active then (app', raise 429) else next app'

-- `POST /api/v1/export-jobs`; `job_id` is the id that the database gives
unfoldable pub create_export_job :
    Settings
    → ExportJobCreate
    → AuthContext
    → ArqPool
    → String
    → Instant
    → App
    → App × HttpResult ExportJobResponse
create_export_job settings body auth arq job_id now app =
    if not (field_extraction_valid body)
    then (app, raise 422)
    else if not (is_some (find_datasink settings body.datasink_name))
    then (app, raise 400)
    else within_quota settings auth now app (submit settings body auth arq job_id now)

-- `GET /api/v1/export-jobs/{job_id}`
unfoldable pub get_export_job_endpoint :
    Settings → String → AuthContext → App → HttpResult ExportJobResponse
get_export_job_endpoint settings job_id auth app =
    elim (get_export_job job_id auth.org_id auth.user_id auth.role app.jobs) [
      | none ↦ raise 404
      | some job ↦ ok (with_download_urls settings job)
    ]

-- `GET /api/v1/export-jobs`, for a page from 1 and a page size from 1 to 100
unfoldable pub list_export_jobs_endpoint :
    Settings → ℕ → ℕ → Option String → AuthContext → App → List ExportJobResponse × ℕ
list_export_jobs_endpoint settings page page_size status auth app =
    let (jobs, total) = list_export_jobs auth.org_id auth.role page page_size status app.jobs in
    (map (with_download_urls settings) jobs, total)

-- The data of the job that `retry_export_job` creates.
unfoldable pub retry_data : ExportJob → ExportJobCreate
retry_data original = record {
  datasource_type = original.datasource_type;
  datasource_ref = original.datasource_ref;
  datasource_filter = original.datasource_filter;
  datasink_name = original.datasink_name;
  destination_dataset = original.destination_dataset;
  asset_resolution = original.asset_resolution;
  asset_url_fields = original.asset_url_fields;
  asset_url_prefix = original.asset_url_prefix;
  asset_datasink_name = original.asset_datasink_name;
  asset_dataset = original.asset_dataset;
  masking_rules = original.masking_rules;
  sampling_config = original.sampling_config;
  webhook_url = original.webhook_url;
  webhook_enabled = original.webhook_enabled;
  webhook_payload_template = original.webhook_payload_template;
  field_extraction = false;
  field_extraction_path = "";
}

abbrev retry_found :
    Settings
    → AuthContext
    → ArqPool
    → String
    → Instant
    → App
    → Option ExportJob
    → App × HttpResult ExportJobResponse
retry_found settings auth arq new_id now app none = (app, raise 404)
retry_found settings auth arq new_id now app (some original) =
    if not (is_failed original.status)
    then (app, raise 400)
    else within_quota settings auth now app
        (submit settings (retry_data original) auth arq new_id now)

-- `POST /api/v1/export-jobs/{job_id}/retry`
unfoldable pub retry_export_job :
    Settings
    → String
    → AuthContext
    → ArqPool
    → String
    → Instant
    → App
    → App × HttpResult ExportJobResponse
retry_export_job settings job_id auth arq new_id now app =
    retry_found settings auth arq new_id now app
      (get_export_job job_id auth.org_id auth.user_id auth.role app.jobs)

-- `POST /api/v1/export-jobs/{job_id}/cancel`
unfoldable pub cancel_export_job_endpoint : String → AuthContext → App → App × HttpResult (Unit {0})
cancel_export_job_endpoint job_id auth app =
    let (rows, done) = cancel_export_job job_id auth.org_id auth.user_id auth.role app.jobs in
    let app' : App = record app { jobs = rows } in
    if done
    then (app', ok tt)
    else if is_some (get_export_job job_id auth.org_id auth.user_id auth.role rows)
    then (app', raise 409)
    else (app', raise 404)
