-- ===== src/Routes/ExportJobs/Retry.antt =====
-- What a retried job has in common with the job that failed.
use Prim.Native.String.{◌++◌ as append}
use databridge.Base.{
  refl, Bool, true, Option, none, str_eq, if◌then◌else◌, ◌≡◌, false, some, String, arith,
  Bool-cases, Option-cases, inl, inr,
}
use databridge.Config.{Settings, find_datasink}
use databridge.Jobs.{Instant, failed, pending, ExportJobCreate, ExportJob, is_failed}
use databridge.Jobs.Store.{
  insert_export_job, new_row, text_or, get_export_job, count_active_jobs_for_org,
}
use databridge.Routes.{AuthContext, App, ArqPool, HttpResult, ok}
use databridge.Routes.ExportJobs.{
  ExportJobResponse, within_quota, submit, retry_export_job, retry_data, with_download_urls,
}

-- Where assets are resolved, a name that is given, and the default for one that is missing or empty.
abbrev asset_name : Bool → Option String → String → Option String
asset_name false given default = none
asset_name true none default = some default
asset_name true (some name) default = if str_eq name "" then some default else some name

-- The columns that a retry takes over: all that a request to create a job has, but those of field
-- extraction.
pub record CopiesOf (original job : ExportJob) : Type 0 where
  pub type : job.datasource_type ≡ original.datasource_type
  pub source : job.datasource_ref ≡ original.datasource_ref
  pub filter : job.datasource_filter ≡ original.datasource_filter
  pub sink : job.datasink_name ≡ original.datasink_name
  pub dataset : job.destination_dataset ≡ original.destination_dataset
  pub assets : job.asset_resolution ≡ original.asset_resolution
  pub url_fields : job.asset_url_fields ≡ original.asset_url_fields
  pub url_prefix : job.asset_url_prefix ≡ original.asset_url_prefix
  pub asset_sink :
      job.asset_datasink_name
      ≡ asset_name original.asset_resolution original.asset_datasink_name original.datasink_name
  pub asset_set :
      job.asset_dataset
      ≡ asset_name original.asset_resolution original.asset_dataset
          (append original.destination_dataset "_assets")
  pub rules : job.masking_rules ≡ original.masking_rules
  pub sampling : job.sampling_config ≡ original.sampling_config
  pub webhook : job.webhook_url ≡ original.webhook_url
  pub enabled : job.webhook_enabled ≡ original.webhook_enabled
  pub template : job.webhook_payload_template ≡ original.webhook_payload_template

with_default :
    (b : Bool) (o : Option String) (d : String)
    → (if b then some (text_or o d) else none) ≡ asset_name b o d
with_default false o d = refl
with_default true none d = refl
with_default true (some s) d = ground arith

job-with_download_urls :
    (settings : Settings) (job : ExportJob) → (with_download_urls settings job).job ≡ job
unfolding with_download_urls
job-with_download_urls settings job =
    elim (Option-cases (find_datasink settings job.datasink_name)) [
      | inl e ↦ rw e
      | inr (cfg, e) ↦ rw e (ground arith)
    ]

submit-ok :
    (settings : Settings) (body : ExportJobCreate) (auth : AuthContext) (arq : ArqPool)
    (job_id : String) (now : Instant) (app : App) (resp : ExportJobResponse)
    → (submit settings body auth arq job_id now app).1 ≡ ok resp
    → resp.job ≡ new_row body auth.org_id auth.user_id job_id now
unfolding submit insert_export_job
submit-ok settings body auth arq job_id now app resp h =
    ground
      (arith, job-with_download_urls settings (new_row body auth.org_id auth.user_id job_id now))

within_quota-ok :
    (settings : Settings) (auth : AuthContext) (now : Instant) (app : App)
    (next : App → App × HttpResult ExportJobResponse) (resp : ExportJobResponse)
    → (within_quota settings auth now app next).1 ≡ ok resp
    → (app' : App) × ((next app').1 ≡ ok resp)
unfolding within_quota
within_quota-ok settings auth now app next resp h =
    (record app { jobs = (count_active_jobs_for_org auth.org_id now app.jobs).0 }, ground arith)

-- A retry that succeeds was of a failed job that the caller may see. Its job is pending, is the
-- caller's, and takes over source, filter, sink, dataset, asset settings, masking, sampling and
-- webhook settings of the original, but never its field extraction, which is off and has no path.
pub retry_export_job-copies :
    (settings : Settings) (old_id : String) (auth : AuthContext) (arq : ArqPool) (new_id : String)
    (now : Instant) (app : App) (original : ExportJob) (resp : ExportJobResponse)
    → get_export_job old_id auth.org_id auth.user_id auth.role app.jobs ≡ some original
    → (retry_export_job settings old_id auth arq new_id now app).1 ≡ ok resp
    → (original.status ≡ failed)
      × (resp.status ≡ pending)
      × (resp.org_id ≡ auth.org_id)
      × (resp.user_id ≡ auth.user_id)
      × CopiesOf original resp.job
      × (resp.field_extraction ≡ false)
      × (resp.field_extraction_path ≡ "")
unfolding retry_export_job new_row retry_data
retry_export_job-copies settings old_id auth arq new_id now app original resp h k =
    elim (Bool-cases (is_failed original.status)) [
      | inr e ↦ absurd (cc (rw (h, e) at k))
      | inl e ↦
          let (app', passed) =
            within_quota-ok settings auth now app
              (submit settings (retry_data original) auth arq new_id now) resp (rw (h, e) at k) in
          let row = submit-ok settings (retry_data original) auth arq new_id now app' resp passed in
          rw row (
            ground arith,
            refl,
            refl,
            refl,
            record {
              type = refl;
              source = refl;
              filter = refl;
              sink = refl;
              dataset = refl;
              assets = refl;
              url_fields = refl;
              url_prefix = refl;
              asset_sink = with_default original.asset_resolution original.asset_datasink_name _;
              asset_set = with_default original.asset_resolution original.asset_dataset _;
              rules = refl;
              sampling = refl;
              webhook = refl;
              enabled = refl;
              template = refl;
            },
            refl,
            refl,
          )
    ]
