-- ===== src/Demo/Refines.antt =====
-- db/demo_pool.py against the table of export/db.py: each statement that changes export_jobs.
use databridge.Base.{
  ◌+◌, ◌-◌, ◌≡◌, refl, ap, Bool, some, List, ◌∷◌, String, arith, str_eq, Bool-cases, Option-cases,
  inl, inr, ltb,
}
use databridge.Jobs.{
  Instant, ExportJob, JobTable, ExportJobStatus, pending, running, completed, failed, cancelled,
  is_active, is_running, is_pending, status_text, minutes,
}
use databridge.Jobs.Store.{
  has_id, fetch, update_where, count_where, set_status, update_export_job_status,
  update_export_progress, update_records_total, update_external_dataset_id,
  update_external_asset_dataset_id, is_unresponsive, is_never_started, new_row, expire,
  stale_job_timeout_minutes, is_cancellable, set_cancelled,
}
use databridge.Jobs.Table.{UniqueIds}
use databridge.Demo.{Cell, text, DemoRecord, put, column, entry, DemoPool, find, Answer}
use databridge.Demo.Sql.{normalise, starts_with, contains, assignments, where_id}
use databridge.Demo.Rows.{job_record}
use databridge.Demo.Jobs.{job_insert, active_cell}
use databridge.Demo.Jobs.Update.{
  job_update, assign_all, is_id, update_found, unresponsive_record, unstarted_record, fail_record,
  cancel_record, fail_where,
}
use databridge.Demo.Dispatch.{dispatch, dispatch_normal, with_jobs}
use databridge.Demo.Statements.{
  Statement, sql, status_sql, args, run_on_pool, run_on_table, answer_of, updates, cutoff,
}
use databridge.Demo.Table.{
  entries, find-entries, update-fetch-none, replace-entries, guarded-fetch-none, guarded-true,
  guarded-false, update_records-entries,
}

-- The pool keeps the table's rows.
abbrev pub Represents : DemoPool → JobTable → Type 0
Represents pool rows = pool.jobs ≡ entries rows

-- A statement's id is not that of a row yet.
abbrev pub Fresh : Statement → JobTable → Type 0
Fresh (Statement.insert body org_id user_id job_id now) rows = count_where (has_id job_id) rows ≡ 0
Fresh _ rows = Unit

abbrev active : ExportJob → Bool
active row = is_active row.status

pub active_cell-status_text :
    (s : ExportJobStatus) → active_cell (text (status_text s)) ≡ is_active s
active_cell-status_text pending = refl
active_cell-status_text running = refl
active_cell-status_text completed = refl
active_cell-status_text failed = refl
active_cell-status_text cancelled = refl

abbrev Refines : DemoPool × Answer → JobTable → Answer → Type 0
Refines r rows a = Represents r.0 rows × (r.1 ≡ a)

module _ (pool : DemoPool) (rows : JobTable) (same : Represents pool rows)
    (unique : UniqueIds rows) where
  update_found-Refines :
      (s : String) (as' : List Cell) (j : String) (f : ExportJob → ExportJob)
      → ((r : ExportJob) → assign_all is_id (assignments s) as' (job_record r) ≡ job_record (f r))
      → ((r : ExportJob) → (f r).id ≡ r.id)
      → Refines
          (with_jobs pool (update_found s as' (text j) pool.jobs (find (text j) pool.jobs)))
          (update_where (has_id j) f rows)
          (updates (has_id j) rows)
  update_found-Refines s as' j f assigned keep = elim (Option-cases (fetch j rows)) [
    | inl e ↦
        let (kept, none_counted) = update-fetch-none j f rows e in
        rw (same, find-entries, e, kept, none_counted) (refl, refl)
    | inr (row, e) ↦
        let (replaced, counted) = replace-entries j f keep rows row (unique j) e in
        rw (same, find-entries, e, assigned row, replaced, counted) (refl, refl)
  ]

  cancel_record-Refines :
      (j : String)
      → Refines
          (with_jobs pool (cancel_record (text j) pool.jobs (find (text j) pool.jobs)))
          (update_where (is_cancellable j) set_cancelled rows)
          (updates (is_cancellable j) rows)
  unfolding column entry put job_record
  cancel_record-Refines j = elim (Option-cases (fetch j rows)) [
    | inl e ↦
        let (kept, counted) = guarded-fetch-none j active set_cancelled rows e in
        rw (same, find-entries, e, kept, counted) (refl, refl)
    | inr (row, e) ↦
        let (replaced, one) = replace-entries j set_cancelled (λ r. refl) rows row (unique j) e in
        elim (Bool-cases (active row)) [
          | inl on ↦
              let (same_update, counted) =
                guarded-true j active set_cancelled rows row (unique j) e on in
              rw
                (
                  same, find-entries, e, active_cell-status_text, on, same_update, counted, one,
                  replaced,
                )
                (refl, refl)
          | inr off ↦
              let (kept, counted) =
                guarded-false j active set_cancelled rows row (unique j) e off in
              rw (same, find-entries, e, active_cell-status_text, off, kept, counted) (refl, refl)
        ]
  ]

  fail_where-Refines :
      (p : DemoRecord → Bool) (q : ExportJob → Bool) (message : String)
      → ((r : ExportJob) → p (job_record r) ≡ q r)
      → Refines
          (with_jobs pool (fail_where p message pool.jobs))
          (update_where q (expire message) rows)
          (updates q rows)
  unfolding put job_record
  fail_where-Refines p q message test =
      let (updated, counted) =
        update_records-entries p (fail_record message) q (expire message) test (λ r. refl)
          (λ r. refl) rows in
      rw (same, updated, counted) (refl, refl)

-- The cutoff that is computed is the one that the table's tests write on the other side.
cutoff-ltb : (at t now : Instant) → ltb at (now - t) ≡ ltb (at + t) now
cutoff-ltb at t now = ground arith

running_text : (s : ExportJobStatus) → str_eq (status_text s) "running" ≡ is_running s
running_text pending = refl
running_text running = refl
running_text completed = refl
running_text failed = refl
running_text cancelled = refl

pending_text : (s : ExportJobStatus) → str_eq (status_text s) "pending" ≡ is_pending s
pending_text pending = refl
pending_text running = refl
pending_text completed = refl
pending_text failed = refl
pending_text cancelled = refl

unresponsive-job_record :
    (org_id : String) (now : Instant) (r : ExportJob)
    → unresponsive_record (text org_id) (some (cutoff now)) (job_record r)
      ≡ is_unresponsive org_id now r
unfolding column entry job_record is_unresponsive
unresponsive-job_record org_id now r = elim (Option-cases r.last_heartbeat_at) [
  | inl e ↦ rw (running_text, e) (ground arith)
  | inr (at, e) ↦
      rw (running_text, e) (ground (arith, cutoff-ltb at (minutes stale_job_timeout_minutes) now))
]

unstarted-job_record :
    (org_id : String) (now : Instant) (r : ExportJob)
    → unstarted_record (text org_id) (some (cutoff now)) (job_record r)
      ≡ is_never_started org_id now r
unfolding column entry job_record is_never_started
unstarted-job_record org_id now r =
    rw pending_text
      (ground (arith, cutoff-ltb r.created_at (minutes stale_job_timeout_minutes) now))

-- On a pool that keeps the rows of a table with unique ids, each statement of export/db.py that
-- changes the table leaves the pool keeping the rows that the table has after it, and answers what
-- the database answers: the row that was inserted, or the number of rows that were changed.
pub run_on_pool-Refines :
    (st : Statement) (pool : DemoPool) (rows : JobTable)
    → Represents pool rows
    → UniqueIds rows
    → Represents (run_on_pool st pool).0 (run_on_table st rows)
      × ((run_on_pool st pool).1 ≡ answer_of st rows)
unfolding run_on_pool run_on_table answer_of dispatch dispatch_normal sql status_sql args normalise
    starts_with contains assignments where_id job_insert job_update assign_all put job_record
    update_export_job_status update_export_progress update_records_total update_external_dataset_id
    update_external_asset_dataset_id entries new_row
run_on_pool-Refines (Statement.insert body org_id user_id job_id now) pool rows same unique =
    (ap (λ d. (job_id, job_record (new_row body org_id user_id job_id now)) ∷ d) same, refl)
run_on_pool-Refines (Statement.set_job_status j pending message now) pool rows same unique =
    update_found-Refines pool rows same unique
      (normalise (sql (Statement.set_job_status j pending message now)))
      (args (Statement.set_job_status j pending message now)) j (set_status pending message now)
      (λ r. refl) (λ r. refl)
run_on_pool-Refines (Statement.set_job_status j running message now) pool rows same unique =
    update_found-Refines pool rows same unique
      (normalise (sql (Statement.set_job_status j running message now)))
      (args (Statement.set_job_status j running message now)) j (set_status running message now)
      (λ r. refl) (λ r. refl)
run_on_pool-Refines (Statement.set_job_status j completed message now) pool rows same unique =
    update_found-Refines pool rows same unique
      (normalise (sql (Statement.set_job_status j completed message now)))
      (args (Statement.set_job_status j completed message now)) j (set_status completed message now)
      (λ r. refl) (λ r. refl)
run_on_pool-Refines (Statement.set_job_status j failed message now) pool rows same unique =
    update_found-Refines pool rows same unique
      (normalise (sql (Statement.set_job_status j failed message now)))
      (args (Statement.set_job_status j failed message now)) j (set_status failed message now)
      (λ r. refl) (λ r. refl)
run_on_pool-Refines (Statement.set_job_status j cancelled message now) pool rows same unique =
    update_found-Refines pool rows same unique
      (normalise (sql (Statement.set_job_status j cancelled message now)))
      (args (Statement.set_job_status j cancelled message now)) j (set_status cancelled message now)
      (λ r. refl) (λ r. refl)
run_on_pool-Refines (Statement.set_progress j n s e now) pool rows same unique =
    update_found-Refines pool rows same unique
      (normalise (sql (Statement.set_progress j n s e now)))
      (args (Statement.set_progress j n s e now)) j
      (λ r. record r {
        records_processed = n;
        records_skipped = s;
        asset_errors = e;
        last_heartbeat_at = some now;
      })
      (λ r. refl) (λ r. refl)
run_on_pool-Refines (Statement.set_total j n) pool rows same unique =
    update_found-Refines pool rows same unique (normalise (sql (Statement.set_total j n)))
      (args (Statement.set_total j n)) j (λ r. record r { records_total = some n }) (λ r. refl)
      (λ r. refl)
run_on_pool-Refines (Statement.set_external j external) pool rows same unique =
    update_found-Refines pool rows same unique (normalise (sql (Statement.set_external j external)))
      (args (Statement.set_external j external)) j
      (λ r. record r { external_dataset_id = some external }) (λ r. refl) (λ r. refl)
run_on_pool-Refines (Statement.set_external_asset j external) pool rows same unique =
    update_found-Refines pool rows same unique
      (normalise (sql (Statement.set_external_asset j external)))
      (args (Statement.set_external_asset j external)) j
      (λ r. record r { external_asset_dataset_id = some external }) (λ r. refl) (λ r. refl)
run_on_pool-Refines (Statement.cancel j) pool rows same unique =
    cancel_record-Refines pool rows same unique j
run_on_pool-Refines (Statement.expire_running org_id now) pool rows same unique =
    fail_where-Refines pool rows same unique (unresponsive_record (text org_id) (some (cutoff now)))
      (is_unresponsive org_id now) "job timed out (no heartbeat)"
      (unresponsive-job_record org_id now)
run_on_pool-Refines (Statement.expire_pending org_id now) pool rows same unique =
    fail_where-Refines pool rows same unique (unstarted_record (text org_id) (some (cutoff now)))
      (is_never_started org_id now) "job timed out (never started)"
      (unstarted-job_record org_id now)
