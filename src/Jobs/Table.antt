-- ===== src/Jobs/Table.antt =====
-- Rows of the table under the statements' updates and counts.
use mathlib.Core.Option
use databridge.Base.{
  ◌≤◌, ◌≡◌, refl, ap, Bool, false, ◌&&◌, ◌∙◌, ℕ, Option, none, some, [], ◌∷◌, String, arith, str_eq,
  ◌==◌, Bool-cases, inl, inr,
}
use databridge.Jobs.{Instant, ExportJob, JobTable}
use databridge.Jobs.Store.{
  has_id, fetch, update_where, change_if, count_where, is_job_cancelled, update_export_progress,
  cancelled_status,
}

-- A lookup by id after an update that leaves the ids alone.
pub fetch-update_where :
    (j : String) (p : ExportJob → Bool) (f : ExportJob → ExportJob) (rows : JobTable)
    → ((r : ExportJob) → (f r).id ≡ r.id)
    → fetch j (update_where p f rows) ≡ Option.map (λ r. change_if (p r) f r) (fetch j rows)
unfolding fetch update_where
fetch-update_where j p f [] keep = refl
fetch-update_where j p f (r ∷ rows) keep =
    ground (arith, keep r, fetch-update_where j p f rows keep)

-- The primary key: no id stands in two rows.
abbrev pub UniqueIds : JobTable → Type 0
UniqueIds rows = (j : String) → count_where (has_id j) rows ≤ 1

count-zero :
    (j : String) (p : ExportJob → Bool) (rows : JobTable)
    → count_where (has_id j) rows ≡ 0
    → count_where (λ r. has_id j r && p r) rows ≡ 0
unfolding count_where
count-zero j p [] h = refl
count-zero j p (r ∷ rows) h = ground (arith, count-zero j p rows)

-- Of the rows with one id that pass a test, the count is one exactly when the row that is fetched
-- passes it.
pub count-fetch :
    (j : String) (p : ExportJob → Bool) (rows : JobTable) (row : ExportJob)
    → count_where (has_id j) rows ≤ 1
    → fetch j rows ≡ some row
    → (count_where (λ r. has_id j r && p r) rows == 1) ≡ p row
unfolding count_where fetch
count-fetch j p [] row u h = cc
count-fetch j p (r ∷ rows) row u h = elim (Bool-cases (has_id j r)) [
  | inl e ↦ ground (arith, count-zero j p rows)
  | inr e ↦ ground (arith, count-fetch j p rows row)
]

-- Mapping rows changes no count of a test that it does not change.
count-update_where :
    (q p : ExportJob → Bool) (f : ExportJob → ExportJob) (rows : JobTable)
    → ((r : ExportJob) → q (f r) ≡ q r)
    → count_where q (update_where p f rows) ≡ count_where q rows
unfolding count_where update_where
count-update_where q p f [] keep = refl
count-update_where q p f (r ∷ rows) keep =
    ground (arith, keep r, count-update_where q p f rows keep)

pub UniqueIds-update_where :
    (p : ExportJob → Bool) (f : ExportJob → ExportJob) (rows : JobTable)
    → ((r : ExportJob) → (f r).id ≡ r.id)
    → UniqueIds rows
    → UniqueIds (update_where p f rows)
UniqueIds-update_where p f rows keep u j =
    rw (count-update_where (has_id j) p f rows (λ r. ap (λ i. str_eq i j) (keep r))) (u j)

cancelled_status-change :
    (j : String) (f : ExportJob → ExportJob) (o : Option ExportJob)
    → ((row : ExportJob) → (f row).status ≡ row.status)
    → cancelled_status (Option.map (λ row. change_if (has_id j row) f row) o) ≡ cancelled_status o
unfolding Option.map
cancelled_status-change j f none h = refl
cancelled_status-change j f (some row) h = elim (Bool-cases (has_id j row)) [
  | inl e ↦ rw (e, h row) refl
  | inr e ↦ rw e refl
]

-- The progress of a job that is not cancelled leaves it so.
pub is_job_cancelled-update_export_progress :
    (j : String) (p s e : ℕ) (now : Instant) (rows : JobTable)
    → is_job_cancelled j rows ≡ false
    → is_job_cancelled j (update_export_progress j p s e now rows) ≡ false
unfolding is_job_cancelled update_export_progress
is_job_cancelled-update_export_progress j p s e now rows h =
    let f : ExportJob → ExportJob = λ row. record row {
      records_processed = p;
      records_skipped = s;
      asset_errors = e;
      last_heartbeat_at = some now;
    } in
    ap cancelled_status (fetch-update_where j (has_id j) f rows (λ r. refl))
    ∙ cancelled_status-change j f (fetch j rows) (λ row. refl)
    ∙ h
