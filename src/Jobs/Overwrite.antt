-- ===== src/Jobs/Overwrite.antt =====
-- What one operation on the table undoes of another.
use mathlib.Core.Option
use databridge.Base.{
  ℕ, ◌≡◌, refl, ◌∙◌, Bool, true, false, Option, none, some, [], ◌∷◌, String, arith, eq_iff, str_eq,
  Bool-cases, inl, inr, ◌⊎◌,
}
use databridge.Base.Lists.{keep_if}
use databridge.Jobs.{Instant, failed, ExportJob, JobTable}
use databridge.Jobs.Store.{
  has_id, fetch, change_if, update_export_job_status, is_job_cancelled, cancelled_status,
  set_status, count_active_jobs_for_org, expire_jobs, is_never_started, is_unresponsive, expire,
}
use databridge.Jobs.Sweep.{ttl_purge_jobs}
use databridge.Jobs.Table.{fetch-update_where}
use databridge.Jobs.Lifecycle.{Report, started, succeeded, broke, reported, reason, report, apply}
use databridge.Jobs.Access.{id-fetch}

set_status-id :
    (r : Report) (now : Instant) (row : ExportJob)
    → (set_status (reported r) (reason r) now row).id ≡ row.id
set_status-id started now row = refl
set_status-id succeeded now row = refl
set_status-id (broke e) now row = refl

not_cancelled :
    (r : Report) (now : Instant) (j : String) (o : Option ExportJob)
    → cancelled_status (
        Option.map (λ row. change_if (has_id j row) (set_status (reported r) (reason r) now) row) o)
      ≡ true
    → (row : ExportJob) × (o ≡ some row) × (str_eq row.id j ≡ false)
unfolding Option.map
not_cancelled r now j none h = cc
not_cancelled started now j (some row) h = (row, refl, ground arith)
not_cancelled succeeded now j (some row) h = (row, refl, ground arith)
not_cancelled (broke e) now j (some row) h = (row, refl, ground arith)

-- A worker's report is written whatever the status is: straight after it the job is never found
-- cancelled, also where a cancellation has just succeeded.
pub report_hides_cancel :
    (job_id : String) (r : Report) (now : Instant) (rows : JobTable)
    → is_job_cancelled job_id (apply (report job_id r now) rows) ≡ false
unfolding apply update_export_job_status is_job_cancelled
report_hides_cancel job_id r now rows =
    elim (Bool-cases (is_job_cancelled job_id (apply (report job_id r now) rows))) [
      | inr e ↦ e
      | inl e ↦
          let moved =
            fetch-update_where job_id (has_id job_id) (set_status (reported r) (reason r) now) rows
              (set_status-id r now) in
          let (row, found, other) =
            not_cancelled r now job_id (fetch job_id rows) (rw moved at e) in
          absurd (differs job_id rows row found other)
    ]
  where
    differs :
        (j : String) (rows' : JobTable) (row : ExportJob)
        → fetch j rows' ≡ some row
        → str_eq row.id j ≡ false
        → ⊥
    differs j rows' row found other = ground (arith, id-fetch j rows' row found, eq_iff row.id j)

-- A row that survives the filter and is the first under its id is found after it.
fetch-keep_if :
    (j : String) (p : ExportJob → Bool) (rows : JobTable) (row : ExportJob)
    → fetch j rows ≡ some row
    → p row ≡ true
    → fetch j (keep_if p rows) ≡ some row
unfolding fetch
fetch-keep_if j p [] row h k = cc
fetch-keep_if j p (r ∷ rows) row h k = ground (arith, fetch-keep_if j p rows row)

module _ (org_id job_id : String) (now : Instant) (rows : JobTable) (row : ExportJob)
    (found : fetch job_id rows ≡ some row) where
  fetch-expire_jobs_started :
      is_unresponsive org_id now row ≡ true
      → fetch job_id (expire_jobs org_id now rows)
        ≡ some (expire "job timed out (no heartbeat)" row)
  unfolding expire_jobs Option.map is_never_started is_unresponsive
  fetch-expire_jobs_started k =
      fetch-update_where job_id (is_never_started org_id now) _ _ (λ r. refl)
      ∙ (rw
          (
            fetch-update_where job_id (is_unresponsive org_id now)
                (expire "job timed out (no heartbeat)") rows (λ r. refl),
            found,
          )
          (ground arith))

  fetch-expire_jobs_pending :
      is_never_started org_id now row ≡ true
      → fetch job_id (expire_jobs org_id now rows)
        ≡ some (expire "job timed out (never started)" row)
  unfolding expire_jobs Option.map is_never_started is_unresponsive
  fetch-expire_jobs_pending k =
      fetch-update_where job_id (is_never_started org_id now) _ _ (λ r. refl)
      ∙ (rw
          (
            fetch-update_where job_id (is_unresponsive org_id now)
                (expire "job timed out (no heartbeat)") rows (λ r. refl),
            found,
          )
          (ground arith))

-- The message of the branch of the check that expires a row.
abbrev Expires : String → Instant → ExportJob → String → Type 0
Expires org_id now row message =
    ((is_unresponsive org_id now row ≡ true) × (message ≡ "job timed out (no heartbeat)"))
    ⊎ ((is_never_started org_id now row ≡ true) × (message ≡ "job timed out (never started)"))

-- A job without a `completed_at` that the concurrency check fails, because its worker has lost its
-- heartbeat or because it never started, gets none, so the clean-up by age keeps it at every later
-- time.
pub expired_never_purged :
    (org_id job_id : String) (now : Instant) (rows : JobTable) (row : ExportJob) (message : String)
    (ttl_days : ℕ) (later : Instant)
    → fetch job_id rows ≡ some row
    → Expires org_id now row message
    → row.completed_at ≡ none
    → fetch job_id (ttl_purge_jobs ttl_days later (count_active_jobs_for_org org_id now rows).0)
      ≡ some (record row { status = failed; error_message = some message })
unfolding ttl_purge_jobs count_active_jobs_for_org
expired_never_purged org_id job_id now rows row message ttl_days later h (inl (k, m)) c = rw m (
    fetch-keep_if job_id _ (expire_jobs org_id now rows) _
      (fetch-expire_jobs_started org_id job_id now rows row h k) (rw c))
expired_never_purged org_id job_id now rows row message ttl_days later h (inr (k, m)) c = rw m (
    fetch-keep_if job_id _ (expire_jobs org_id now rows) _
      (fetch-expire_jobs_pending org_id job_id now rows row h k) (rw c))
