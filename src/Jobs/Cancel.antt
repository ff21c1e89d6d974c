-- ===== src/Jobs/Cancel.antt =====
-- Cancelling a job: `cancel_export_job` of export/db.py.
use mathlib.Core.Option
use databridge.Base.{
  ◌≡◌, refl, ◌∙◌, Bool, true, false, not, ◌&&◌, Option, none, some, String, arith, eq_iff, str_eq,
  Bool-cases, Option-cases, inl, inr, if◌then◌else◌, is_some, str_eq_self,
}
use databridge.Jobs.{ExportJob, JobTable, is_active}
use databridge.Jobs.Store.{
  fetch, update_where, may_see, get_export_job, cancel_forbidden, is_cancellable, set_cancelled,
  cancel_found, cancel_export_job, is_job_cancelled, cancelled_status,
}
use databridge.Jobs.Table.{fetch-update_where, UniqueIds, count-fetch}
use databridge.Jobs.Access.{id-fetch}

-- Cancelling is allowed to exactly those who may see the job.
cancel_forbidden-may_see :
    (org_id user_id role : String) (row : ExportJob)
    → cancel_forbidden org_id user_id role row ≡ not (may_see org_id user_id role row)
unfolding cancel_forbidden may_see
cancel_forbidden-may_see org_id user_id role row =
    ground
      (arith, eq_iff role "super_admin", eq_iff role "org_admin", eq_iff "super_admin" "org_admin")

abbrev pub is_seen_active : Option ExportJob → Bool
is_seen_active none = false
is_seen_active (some row) = is_active row.status

-- Where ids are unique, cancelling succeeds exactly when `get_export_job` shows the caller a job
-- that is pending or running.
pub cancel_export_job-succeeds :
    (job_id org_id user_id role : String) (rows : JobTable)
    → UniqueIds rows
    → (cancel_export_job job_id org_id user_id role rows).1
      ≡ is_seen_active (get_export_job job_id org_id user_id role rows)
unfolding cancel_export_job cancel_found get_export_job
cancel_export_job-succeeds job_id org_id user_id role rows u =
    elim (Option-cases (fetch job_id rows)) [
      | inl e ↦ rw e
      | inr (row, e) ↦
          rw (e, cancel_forbidden-may_see)
            (ground (arith, count-fetch job_id (λ r. is_active r.status) rows row (u job_id) e))
    ]

-- The update of one job's row, read back under any id.
fetch-cancelled :
    (job_id : String) (rows : JobTable) (row : ExportJob) (j : String)
    → fetch job_id rows ≡ some row
    → is_active row.status ≡ true
    → fetch j (update_where (is_cancellable job_id) set_cancelled rows)
      ≡ (if str_eq j job_id then Option.map set_cancelled (fetch j rows) else fetch j rows)
unfolding Option.map
fetch-cancelled job_id rows row j e a =
    fetch-update_where j (is_cancellable job_id) set_cancelled rows (λ r. refl)
    ∙ elim (Option-cases (fetch j rows)) [
      | inl e' ↦ rw e' (ground arith)
      | inr (r, e') ↦ ground (arith, id-fetch j rows r e', eq_iff j job_id, eq_iff r.id job_id)
    ]

-- Where ids are unique, a cancellation that succeeds sets the status of that one job to cancelled
-- and keeps all else of it; no other job changes, and nothing changes where it fails.
fetch-cancel_export_job :
    (job_id org_id user_id role : String) (rows : JobTable) (j : String)
    → UniqueIds rows
    → fetch j (cancel_export_job job_id org_id user_id role rows).0 ≡ (
        if (cancel_export_job job_id org_id user_id role rows).1 && str_eq j job_id
        then Option.map set_cancelled (fetch j rows)
        else fetch j rows)
unfolding cancel_export_job cancel_found
fetch-cancel_export_job job_id org_id user_id role rows j u =
    elim (Option-cases (fetch job_id rows)) [
      | inl e ↦ rw e
      | inr (row, e) ↦ elim (Bool-cases (cancel_forbidden org_id user_id role row)) [
        | inl f ↦ rw (e, f)
        | inr f ↦ elim (Bool-cases (is_active row.status)) [
          | inr a ↦ rw (e, f, a)
          | inl a ↦
              let one = count-fetch job_id (λ r. is_active r.status) rows row (u job_id) e ∙ a in
              rw (e, f, a, one) (fetch-cancelled job_id rows row j e a)
        ]
      ]
    ]

-- Where ids are unique, cancelling succeeds exactly when `get_export_job` shows the caller a job that
-- is pending or running, and then gives this job, and no other, the status cancelled and keeps all
-- else of it; nothing changes where it fails.
pub cancel_export_job_lem :
    (job_id org_id user_id role : String) (rows : JobTable) (j : String)
    → UniqueIds rows
    → ((cancel_export_job job_id org_id user_id role rows).1
        ≡ is_seen_active (get_export_job job_id org_id user_id role rows))
      × (fetch j (cancel_export_job job_id org_id user_id role rows).0 ≡ (
          if (cancel_export_job job_id org_id user_id role rows).1 && str_eq j job_id
          then Option.map set_cancelled (fetch j rows)
          else fetch j rows))
cancel_export_job_lem job_id org_id user_id role rows j u = (
  cancel_export_job-succeeds job_id org_id user_id role rows u,
  fetch-cancel_export_job job_id org_id user_id role rows j u,
)

cancelled_found :
    (job_id org_id user_id role : String) (rows : JobTable)
    → (cancel_export_job job_id org_id user_id role rows).1 ≡ true
    → is_some (fetch job_id rows) ≡ true
unfolding cancel_export_job cancel_found
cancelled_found job_id org_id user_id role rows h = elim (Option-cases (fetch job_id rows)) [
  | inl e ↦ cc (rw e at h)
  | inr (row, e) ↦ rw e
]

status-set_cancelled :
    (o : Option ExportJob) → is_some o ≡ true → cancelled_status (Option.map set_cancelled o) ≡ true
unfolding Option.map
status-set_cancelled none h = cc
status-set_cancelled (some row) h = refl

-- After a cancellation that succeeds the worker's check finds the job cancelled.
is_job_cancelled-cancel_export_job :
    (job_id org_id user_id role : String) (rows : JobTable)
    → UniqueIds rows
    → (cancel_export_job job_id org_id user_id role rows).1 ≡ true
    → is_job_cancelled job_id (cancel_export_job job_id org_id user_id role rows).0 ≡ true
unfolding is_job_cancelled
is_job_cancelled-cancel_export_job job_id org_id user_id role rows u h =
    let after = fetch-cancel_export_job job_id org_id user_id role rows job_id u in
    let found = cancelled_found job_id org_id user_id role rows h in
    rw (after, h, str_eq_self job_id) (status-set_cancelled (fetch job_id rows) found)

-- A cancellation that fails changes no row.
pub cancel_export_job-fails :
    (job_id org_id user_id role : String) (rows : JobTable)
    → UniqueIds rows
    → (cancel_export_job job_id org_id user_id role rows).1 ≡ false
    → (cancel_export_job job_id org_id user_id role rows).0 ≡ rows
unfolding cancel_export_job cancel_found
cancel_export_job-fails job_id org_id user_id role rows u h =
    elim (Option-cases (fetch job_id rows)) [
      | inl e ↦ rw e
      | inr (row, e) ↦ elim (Bool-cases (cancel_forbidden org_id user_id role row)) [
        | inl f ↦ rw (e, f)
        | inr f ↦ elim (Bool-cases (is_active row.status)) [
          | inr a ↦ rw (e, f, a)
          | inl a ↦
              let one = count-fetch job_id (λ r. is_active r.status) rows row (u job_id) e ∙ a in
              absurd (cc (rw (e, f, a, one) at h))
        ]
      ]
    ]
