-- ===== src/Jobs/Lifecycle.antt =====
-- The life of a job: every statement on the table as an operation, in any order.
use databridge.Base.{
  ℕ, ◌≡◌, refl, Bool, true, false, Option, none, some, List, [], ◌∷◌, String, arith, is_some,
  Bool-cases, inl, inr,
}
use databridge.Base.Lists.{All, keep_if}
use databridge.Jobs.{
  Instant, ExportJobStatus, pending, running, completed, failed, cancelled, ExportJob, JobTable,
  ExportJobCreate,
}
use databridge.Jobs.Store.{
  fetch, update_where, change_if, new_row, insert_export_job, update_export_job_status,
  update_export_progress, update_records_total, update_external_dataset_id,
  update_external_asset_dataset_id, cancel_export_job, cancel_found, is_cancellable, set_cancelled,
  set_status, count_active_jobs_for_org, expire_jobs,
}
use databridge.Jobs.Sweep.{mark_stale_jobs, ttl_purge_jobs}

-- What the workers report at the end or the start of a job.
pub data Report : Type 0 where
  started succeeded : Report
  broke : Option String → Report

abbrev pub reported : Report → ExportJobStatus
reported started = running
reported succeeded = completed
reported (broke e) = failed

abbrev pub reason : Report → Option String
reason started = none
reason succeeded = none
reason (broke e) = e

-- The operations of the routes, the workers and the sweep on the table; each carries what the
-- database and the clock supply.
pub data JobOp : Type 0 where
  create : ExportJobCreate → String → String → String → Instant → JobOp
  report : String → Report → Instant → JobOp
  progress : String → ℕ → ℕ → ℕ → Instant → JobOp
  set_total : String → ℕ → JobOp
  set_external : String → String → JobOp
  set_external_asset : String → String → JobOp
  cancel : String → String → String → String → JobOp
  count_active : String → Instant → JobOp
  mark_stale : ℕ → String → Instant → JobOp
  purge : ℕ → Instant → JobOp

unfoldable pub apply : JobOp → JobTable → JobTable
apply (create body org user job_id now) rows = (insert_export_job body org user job_id now rows).0
apply (report job_id r now) rows = update_export_job_status job_id (reported r) (reason r) now rows
apply (progress job_id p s e now) rows = update_export_progress job_id p s e now rows
apply (set_total job_id n) rows = update_records_total job_id n rows
apply (set_external job_id x) rows = update_external_dataset_id job_id x rows
apply (set_external_asset job_id x) rows = update_external_asset_dataset_id job_id x rows
apply (cancel job_id org user role) rows = (cancel_export_job job_id org user role rows).0
apply (count_active org now) rows = (count_active_jobs_for_org org now rows).0
apply (mark_stale timeout message now) rows = mark_stale_jobs timeout message now rows
apply (purge ttl now) rows = ttl_purge_jobs ttl now rows

unfoldable pub run : List JobOp → JobTable → JobTable
run [] rows = rows
run (op ∷ ops) rows = run ops (apply op rows)

-- The times that go with a status: start, end and heartbeat.
abbrev TimesFit : ExportJobStatus → Option Instant → Option Instant → Option Instant → Type 0
TimesFit pending start end_ beat = (start ≡ none) × (end_ ≡ none)
TimesFit running start end_ beat = (is_some start ≡ true) × (is_some beat ≡ true)
TimesFit completed start end_ beat = is_some end_ ≡ true
TimesFit failed start end_ beat = Unit
TimesFit cancelled start end_ beat = Unit

abbrev IsTimed : ExportJob → Type 0
IsTimed row = TimesFit row.status row.started_at row.completed_at row.last_heartbeat_at

abbrev pub AllTimed : JobTable → Type 0
AllTimed = All IsTimed

update_where-AllTimed :
    (p : ExportJob → Bool) (f : ExportJob → ExportJob) (rows : JobTable)
    → ((r : ExportJob) → p r ≡ true → IsTimed r → IsTimed (f r))
    → AllTimed rows
    → AllTimed (update_where p f rows)
unfolding update_where
update_where-AllTimed p f [] keep h = tt
update_where-AllTimed p f (r ∷ rows) keep (h, hs) =
    (change (p r) refl, update_where-AllTimed p f rows keep hs)
  where
    change : (b : Bool) → p r ≡ b → IsTimed (change_if b f r)
    change true e = keep r e h
    change false e = h

keep_if-AllTimed :
    (p : ExportJob → Bool) (rows : JobTable) → AllTimed rows → AllTimed (keep_if p rows)
keep_if-AllTimed p [] h = tt
keep_if-AllTimed p (r ∷ rows) (h, hs) = elim (Bool-cases (p r)) [
  | inl e ↦ rw e (h, keep_if-AllTimed p rows hs)
  | inr e ↦ rw e (keep_if-AllTimed p rows hs)
]

set_status-IsTimed :
    (r : Report) (now : Instant) (row : ExportJob)
    → IsTimed row
    → IsTimed (set_status (reported r) (reason r) now row)
set_status-IsTimed started now row h = ground arith
set_status-IsTimed succeeded now row h = ground arith
set_status-IsTimed (broke e) now row h = ground arith

cancel-AllTimed :
    (job_id org user role : String) (rows : JobTable) (o : Option ExportJob)
    → AllTimed rows
    → AllTimed (cancel_found job_id org user role rows o).0
unfolding cancel_found
cancel-AllTimed job_id org user role rows none h = h
cancel-AllTimed job_id org user role rows (some row) h = ground (
  arith,
  update_where-AllTimed (is_cancellable job_id) set_cancelled rows (λ r e t. ground arith) h,
)

-- Every operation keeps the times of every row in step with its status.
apply-AllTimed : (op : JobOp) (rows : JobTable) → AllTimed rows → AllTimed (apply op rows)
unfolding apply insert_export_job new_row update_export_job_status update_export_progress
    update_records_total update_external_dataset_id update_external_asset_dataset_id
    cancel_export_job count_active_jobs_for_org expire_jobs mark_stale_jobs ttl_purge_jobs
apply-AllTimed (create body org user job_id now) rows h = (ground arith, h)
apply-AllTimed (report job_id r now) rows h =
    update_where-AllTimed _ _ rows (λ row e t. set_status-IsTimed r now row t) h
apply-AllTimed (progress job_id p s e now) rows h =
    update_where-AllTimed _ _ rows (λ row e' t. ground arith) h
apply-AllTimed (set_total job_id n) rows h =
    update_where-AllTimed _ _ rows (λ row e t. ground arith) h
apply-AllTimed (set_external job_id x) rows h =
    update_where-AllTimed _ _ rows (λ row e t. ground arith) h
apply-AllTimed (set_external_asset job_id x) rows h =
    update_where-AllTimed _ _ rows (λ row e t. ground arith) h
apply-AllTimed (cancel job_id org user role) rows h =
    cancel-AllTimed job_id org user role rows (fetch job_id rows) h
apply-AllTimed (count_active org now) rows h =
    update_where-AllTimed _ _ _ (λ row e t. ground arith)
      (update_where-AllTimed _ _ rows (λ row e t. ground arith) h)
apply-AllTimed (mark_stale timeout message now) rows h =
    update_where-AllTimed _ _ rows (λ row e t. ground arith) h
apply-AllTimed (purge ttl now) rows h = keep_if-AllTimed _ rows h

-- Whatever the routes, the workers and the sweep do, in any order, starting from an empty table:
-- a pending job has no start and no end, a running job has a start and a heartbeat, and a
-- completed job has an end.
pub run-AllTimed : (ops : List JobOp) → AllTimed (run ops [])
unfolding run
run-AllTimed ops = run_from ops [] tt
  where
    run_from : (ops' : List JobOp) (rows : JobTable) → AllTimed rows → AllTimed (run ops' rows)
    run_from [] rows h = h
    run_from (op ∷ ops') rows h = run_from ops' (apply op rows) (apply-AllTimed op rows h)
