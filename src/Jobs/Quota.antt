-- ===== src/Jobs/Quota.antt =====
-- The number of active jobs of an organisation under the statements of export/db.py.
use databridge.Base.{
  Option-cases, inl, inr, ℕ, ◌+◌, ◌≤◌, ◌≡◌, refl, Bool, [], ◌∷◌, String, arith, str_eq,
  if◌then◌else◌,
}
use databridge.Jobs.{Instant, ExportJobCreate, ExportJob, JobTable}
use databridge.Jobs.Store.{
  cancel_export_job, cancel_found, set_cancelled, is_cancellable, fetch, update_where, count_where,
  new_row, insert_export_job, is_active_of, is_unresponsive, is_never_started, expire, expire_jobs,
  count_active_jobs_for_org,
}

abbrev pub active : String → JobTable → ℕ
active org_id rows = count_where (is_active_of org_id) rows

active-expire :
    (org_id : String) (p : ExportJob → Bool) (message : String) (rows : JobTable)
    → active org_id (update_where p (expire message) rows) ≤ active org_id rows
unfolding count_where update_where
active-expire org_id p message [] = omega arith
active-expire org_id p message (row ∷ rows) = ground (arith, active-expire org_id p message rows)

-- Failing stale jobs raises no organisation's count.
pub active-count_active_jobs :
    (org_id other : String) (now : Instant) (rows : JobTable)
    → active other (count_active_jobs_for_org org_id now rows).0 ≤ active other rows
unfolding count_active_jobs_for_org expire_jobs
active-count_active_jobs org_id other now rows =
    let first =
      update_where (is_unresponsive org_id now) (expire "job timed out (no heartbeat)") rows in
    omega (
      arith,
      active-expire other (is_unresponsive org_id now) "job timed out (no heartbeat)" rows,
      active-expire other (is_never_started org_id now) "job timed out (never started)" first,
    )

-- What is counted is the table that is left.
pub count_active_jobs-eq :
    (org_id : String) (now : Instant) (rows : JobTable)
    → (count_active_jobs_for_org org_id now rows).1
      ≡ active org_id (count_active_jobs_for_org org_id now rows).0
unfolding count_active_jobs_for_org
count_active_jobs-eq org_id now rows = refl

-- A new job counts for its own organisation.
pub active-insert_export_job :
    (body : ExportJobCreate) (org_id user_id job_id : String) (now : Instant) (rows : JobTable)
    (other : String)
    → active other (insert_export_job body org_id user_id job_id now rows).0
      ≡ (if str_eq org_id other then active other rows + 1 else active other rows)
unfolding insert_export_job new_row count_where
active-insert_export_job body org_id user_id job_id now rows other = ground arith

active-set_cancelled :
    (org_id : String) (p : ExportJob → Bool) (rows : JobTable)
    → active org_id (update_where p set_cancelled rows) ≤ active org_id rows
unfolding count_where update_where
active-set_cancelled org_id p [] = omega arith
active-set_cancelled org_id p (row ∷ rows) = ground (arith, active-set_cancelled org_id p rows)

-- A cancellation adds no active job.
pub active-cancel_export_job :
    (job_id org_id user_id role other : String) (rows : JobTable)
    → active other (cancel_export_job job_id org_id user_id role rows).0 ≤ active other rows
unfolding cancel_export_job cancel_found
active-cancel_export_job job_id org_id user_id role other rows =
    elim (Option-cases (fetch job_id rows)) [
      | inl e ↦ rw e (omega arith)
      | inr (row, e) ↦
          rw e (ground (arith, active-set_cancelled other (is_cancellable job_id) rows))
    ]
