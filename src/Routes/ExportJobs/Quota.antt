-- ===== src/Routes/ExportJobs/Quota.antt =====
-- The limit on the active jobs of an organisation.
use databridge.Base.{
  List, [], ◌∷◌, ℕ, ◌+◌, ◌≤◌, ◌≡◌, true, String, arith, str_eq, str_eq_self, if◌then◌else◌,
  Option-cases, inl, inr, eq_iff,
}
use databridge.Config.{Settings}
use databridge.Jobs.{Instant, ExportJobCreate, JobTable}
use databridge.Jobs.Store.{insert_export_job, count_active_jobs_for_org, get_export_job}
use databridge.Jobs.Quota.{
  active, active-count_active_jobs, count_active_jobs-eq, active-insert_export_job,
  active-cancel_export_job,
}
use databridge.Routes.{AuthContext, App, ArqPool}
use databridge.Routes.ExportJobs.{
  within_quota, submit, create_export_job, retry_export_job, retry_data, cancel_export_job_endpoint,
}

module _ (settings : Settings) (auth : AuthContext) (arq : ArqPool) (job_id : String)
    (now : Instant) where
  abbrev limit : ℕ
  limit = settings.export.max_concurrent_jobs_per_org

  active-submit :
      (body : ExportJobCreate) (app : App) (other : String)
      → active other (submit settings body auth arq job_id now app).0.jobs
        ≤ (if str_eq auth.org_id other then active other app.jobs + 1 else active other app.jobs)
  unfolding submit
  active-submit body app other =
      ground
        (arith, active-insert_export_job body auth.org_id auth.user_id job_id now app.jobs other)

  within_quota-active :
      (body : ExportJobCreate) (app : App) (other : String)
      → active other app.jobs ≤ limit
      → active other
          (within_quota settings auth now app (submit settings body auth arq job_id now)).0.jobs
        ≤ limit
  unfolding within_quota
  within_quota-active body app other h =
      let rows = (count_active_jobs_for_org auth.org_id now app.jobs).0 in
      ground (
        arith,
        active-count_active_jobs auth.org_id other now app.jobs,
        count_active_jobs-eq auth.org_id now app.jobs,
        active-submit body (record app { jobs = rows }) other,
        eq_iff auth.org_id other,
      )

  create_export_job-within_limit :
      (body : ExportJobCreate) (app : App) (other : String)
      → active other app.jobs ≤ limit
      → active other (create_export_job settings body auth arq job_id now app).0.jobs ≤ limit
  unfolding create_export_job
  create_export_job-within_limit body app other h =
      ground (arith, within_quota-active body app other h)

  retry_export_job-within_limit :
      (old_id : String) (app : App) (other : String)
      → active other app.jobs ≤ limit
      → active other (retry_export_job settings old_id auth arq job_id now app).0.jobs ≤ limit
  unfolding retry_export_job
  retry_export_job-within_limit old_id app other h =
      elim (Option-cases (get_export_job old_id auth.org_id auth.user_id auth.role app.jobs)) [
        | inl e ↦ rw e h
        | inr (row, e) ↦ rw e (ground (arith, within_quota-active (retry_data row) app other h))
      ]

  cancel_export_job-within_limit :
      (id : String) (app : App) (other : String)
      → active other app.jobs ≤ limit
      → active other (cancel_export_job_endpoint id auth app).0.jobs ≤ limit
  unfolding cancel_export_job_endpoint
  cancel_export_job-within_limit id app other h =
      ground (arith, active-cancel_export_job id auth.org_id auth.user_id auth.role other app.jobs)

-- One request that changes the table: what it asks for, of whom, the queue as it answers then, the
-- id of a new job and the time.
pub data Action : Type 0 where
  create : ExportJobCreate → Action
  retry : String → Action
  cancel : String → Action

pub record Request : Type 0 where
  pub action : Action
  pub auth : AuthContext
  pub arq : ArqPool
  pub job_id : String
  pub now : Instant

abbrev act : Settings → Action → Request → App → App
act settings (create body) r app =
    (create_export_job settings body r.auth r.arq r.job_id r.now app).0
act settings (retry old_id) r app =
    (retry_export_job settings old_id r.auth r.arq r.job_id r.now app).0
act settings (cancel id) r app = (cancel_export_job_endpoint id r.auth app).0

-- The requests one after the other.
unfoldable pub handle_all : Settings → List Request → App → App
handle_all settings [] app = app
handle_all settings (r ∷ rs) app = handle_all settings rs (act settings r.action r app)

-- Requests that create, retry and cancel jobs, one after the other, of any callers and at any times,
-- whatever comes of each, leave an organisation that was within the limit of active jobs within the
-- limit.
pub handle_all-within_limit :
    (settings : Settings) (rs : List Request) (app : App) (other : String)
    → active other app.jobs ≤ settings.export.max_concurrent_jobs_per_org
    → active other (handle_all settings rs app).jobs ≤ settings.export.max_concurrent_jobs_per_org
unfolding handle_all
handle_all-within_limit settings [] app other h = h
handle_all-within_limit settings (r ∷ rs) app other h =
    handle_all-within_limit settings rs (act settings r.action r app) other (after r.action)
  where
    after :
        (a : Action)
        → active other (act settings a r app).jobs ≤ settings.export.max_concurrent_jobs_per_org
    after (create body) =
        create_export_job-within_limit settings r.auth r.arq r.job_id r.now body app other h
    after (retry old_id) =
        retry_export_job-within_limit settings r.auth r.arq r.job_id r.now old_id app other h
    after (cancel id) =
        cancel_export_job-within_limit settings r.auth r.arq r.job_id r.now id app other h

submit-jobs :
    (settings : Settings) (auth : AuthContext) (arq : ArqPool) (body : ExportJobCreate)
    (id : String) (now : Instant) (app : App)
    → arq.present ≡ true
    → arq.pings ≡ true
    → (submit settings body auth arq id now app).0.jobs
      ≡ (insert_export_job body auth.org_id auth.user_id id now app.jobs).0
unfolding submit
submit-jobs settings auth arq body id now app hp hq = ground arith

submit-active_self :
    (settings : Settings) (auth : AuthContext) (arq : ArqPool) (body : ExportJobCreate)
    (id : String) (now : Instant) (app : App)
    → arq.present ≡ true
    → arq.pings ≡ true
    → active auth.org_id (submit settings body auth arq id now app).0.jobs
      ≡ active auth.org_id app.jobs + 1
submit-active_self settings auth arq body id now app hp hq = rw (
  submit-jobs settings auth arq body id now app hp hq,
  active-insert_export_job,
  str_eq_self auth.org_id,
)

-- Where two requests of one organisation both count one job below the limit before either
-- inserts, the queue being up, both inserts leave the organisation one job above the limit.
pub quota_race :
    (settings : Settings) (auth : AuthContext) (arq : ArqPool) (body body' : ExportJobCreate)
    (id id' : String) (now now' : Instant) (app : App) (rows rows' : JobTable) (counted : ℕ)
    → arq.present ≡ true
    → arq.pings ≡ true
    → counted + 1 ≡ settings.export.max_concurrent_jobs_per_org
    → count_active_jobs_for_org auth.org_id now app.jobs ≡ (rows, counted)
    → count_active_jobs_for_org auth.org_id now' rows ≡ (rows', counted)
    → active auth.org_id
        (submit settings body' auth arq id' now'
          (submit settings body auth arq id now (record app { jobs = rows' })).0).0.jobs
      ≡ settings.export.max_concurrent_jobs_per_org + 1
quota_race settings auth arq body body' id id' now now' app rows rows' counted hp hq hc h h' =
    let app' : App = record app { jobs = rows' } in
    let (app'', r) = submit settings body auth arq id now app' in
    let once = submit-active_self settings auth arq body id now app' hp hq in
    let twice = submit-active_self settings auth arq body' id' now' app'' hp hq in
    let left : counted ≡ active auth.org_id rows' =
      rw h' at (count_active_jobs-eq auth.org_id now' rows) in
    omega (arith, once, twice)
