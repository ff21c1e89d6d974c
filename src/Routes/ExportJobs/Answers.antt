-- ===== src/Routes/ExportJobs/Answers.antt =====
-- Which answer a request gets.
use databridge.Base.{
  arith, ◌≡◌, refl, true, false, Option, none, some, String, is_some, if◌then◌else◌, Bool-cases,
  inl, inr, str_eq_self, ◌∙◌, sym, leb, Bool, not, ◌&&◌, ◌++◌, [], ◌∷◌, List, str_eq,
}
use databridge.Config.{Settings, find_datasink}
use databridge.Jobs.{Instant, ExportJobCreate, ExportJob, JobTable, is_active}
use databridge.Jobs.Store.{
  cancel_export_job, get_export_job, insert_export_job, new_row, fetch, count_active_jobs_for_org,
}
use databridge.Jobs.Table.{UniqueIds}
use databridge.Jobs.Cancel.{cancel_export_job-succeeds, cancel_export_job-fails, is_seen_active}
use databridge.Routes.{AuthContext, App, ArqPool, HttpResult, ok, raise}
use databridge.Routes.ExportJobs.{
  cancel_export_job_endpoint, submit, within_quota, create_export_job, field_extraction_valid,
}
use mathlib.Core.Option
use databridge.Base.Lists.{any_of}
use databridge.Jobs.Table.{fetch-update_where}
use databridge.Jobs.Store.{expire_jobs, is_never_started, is_unresponsive, expire}

-- The answer to a cancellation, from what the caller is shown of the job.
abbrev pub cancel_answer : Option ExportJob → HttpResult (Unit {0})
cancel_answer none = raise 404
cancel_answer (some row) = if is_active row.status then ok tt else raise 409

-- Where ids are unique, a request to cancel is answered with 404 if the caller may not see the
-- job, with 409 if the job is neither pending nor running, and else succeeds.
pub cancel_export_job_endpoint-answer :
    (job_id : String) (auth : AuthContext) (app : App)
    → UniqueIds app.jobs
    → (cancel_export_job_endpoint job_id auth app).1
      ≡ cancel_answer (get_export_job job_id auth.org_id auth.user_id auth.role app.jobs)
unfolding cancel_export_job_endpoint
cancel_export_job_endpoint-answer job_id auth app u =
    let result = cancel_export_job job_id auth.org_id auth.user_id auth.role app.jobs in
    let same = cancel_export_job-succeeds job_id auth.org_id auth.user_id auth.role app.jobs u in
    elim (Bool-cases result.1) [
      | inl e ↦ rw e (
          answered (get_export_job job_id auth.org_id auth.user_id auth.role app.jobs)
            (sym same ∙ e))
      | inr e ↦
          rw (e, cancel_export_job-fails job_id auth.org_id auth.user_id auth.role app.jobs u e)
            (refused app (get_export_job job_id auth.org_id auth.user_id auth.role app.jobs)
              (sym same ∙ e))
    ]
  where
    answered : (o : Option ExportJob) → is_seen_active o ≡ true → ok tt ≡ cancel_answer o
    answered none h = cc
    answered (some row) h = rw h

    refused :
        (app' : App) (o : Option ExportJob)
        → is_seen_active o ≡ false
        → (if◌then◌else◌ {A = App × HttpResult (Unit {0})}
            (is_some o)
            (app', raise 409)
            (app', raise 404)).1
          ≡ cancel_answer o
    refused app' none h = refl
    refused app' (some row) h = rw h

-- Whether a request to create a job passes the checks that come before the insertion: those of the
-- body, of the limit and of the queue.
abbrev pub accepted : Settings → ExportJobCreate → AuthContext → ArqPool → Instant → App → Bool
accepted settings body auth arq now app =
    field_extraction_valid body
    && (is_some (find_datasink settings body.datasink_name)
        && (not (
              leb settings.export.max_concurrent_jobs_per_org
                (count_active_jobs_for_org auth.org_id now app.jobs).1)
            && (arq.present && arq.pings)))

abbrev pub answers_ok {ℓ} : {A : Type ℓ} → HttpResult A → Bool
answers_ok (ok a) = true
answers_ok (raise status) = false

any_of-append : (s : String) (xs : List String) → any_of (str_eq s) (xs ++ s ∷ []) ≡ true
any_of-append s [] = rw (str_eq_self s) refl
any_of-append s (x ∷ xs) = elim (Bool-cases (str_eq s x)) [
  | inl e ↦ rw e refl
  | inr e ↦ rw e (any_of-append s xs)
]

fetch-expire_jobs_none :
    (job_id org_id : String) (now : Instant) (rows : JobTable)
    → fetch job_id rows ≡ none
    → fetch job_id (count_active_jobs_for_org org_id now rows).0 ≡ none
unfolding count_active_jobs_for_org expire_jobs Option.map
fetch-expire_jobs_none job_id org_id now rows h =
    fetch-update_where job_id (is_never_started org_id now) _ _ (λ r. refl)
    ∙ (rw
        (
          fetch-update_where job_id (is_unresponsive org_id now)
              (expire "job timed out (no heartbeat)") rows (λ r. refl),
          h,
        )
        refl)

-- A request to create a job under an id that neither the table nor the queue has leaves the new job,
-- the caller's and with the settings of the body, under it in the table if all checks pass and the
-- queue answers its ping, and else no job; and it leaves the id in the queue, behind what was there,
-- exactly if the queue also takes it, which is exactly when the request succeeds. So a queue that
-- takes no job leaves a job in the table that is not in the queue, and the request fails.
pub create_export_job-effect :
    (settings : Settings) (body : ExportJobCreate) (auth : AuthContext) (arq : ArqPool)
    (job_id : String) (now : Instant) (app : App)
    → fetch job_id app.jobs ≡ none
    → any_of (str_eq job_id) app.queue ≡ false
    → let (app', answer) = create_export_job settings body auth arq job_id now app in
      (fetch job_id app'.jobs ≡ (
        if accepted settings body auth arq now app
        then some (new_row body auth.org_id auth.user_id job_id now)
        else none))
      × (any_of (str_eq job_id) app'.queue
          ≡ (accepted settings body auth arq now app && arq.enqueues))
      × (answers_ok answer ≡ (accepted settings body auth arq now app && arq.enqueues))
      × (app'.queue ≡ (
          if accepted settings body auth arq now app && arq.enqueues
          then app.queue ++ job_id ∷ []
          else app.queue))
unfolding create_export_job within_quota submit insert_export_job fetch new_row
create_export_job-effect settings body auth arq job_id now app fresh idle = ground (
  arith,
  fetch-expire_jobs_none job_id auth.org_id now app.jobs fresh,
  str_eq_self job_id,
  any_of-append job_id app.queue,
)
