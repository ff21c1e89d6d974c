-- ===== src/Demo/Table.antt =====
-- The pool's dict of jobs as the table of jobs: lookups and updates of one as those of the other.
use mathlib.Core.Option
use databridge.Base.{◌≤◌, ◌≡◌, refl, Bool, true, false, ◌&&◌, none, some, [], ◌∷◌, String, arith}
use databridge.Jobs.{ExportJob, JobTable}
use databridge.Jobs.Store.{has_id, fetch, update_where, count_where}
use databridge.Demo.{text, DemoRecord, Records, find, replace}
use databridge.Demo.Rows.{job_record}
use databridge.Demo.Jobs.Update.{update_records, count_records}

-- The dict that holds the rows of a table.
unfoldable pub entries : JobTable → Records
entries [] = []
entries (row ∷ rows) = (row.id, job_record row) ∷ entries rows

pub find-entries :
    (j : String) (rows : JobTable)
    → find (text j) (entries rows) ≡ Option.map job_record (fetch j rows)
unfolding find entries fetch
find-entries j [] = refl
find-entries j (r ∷ rows) = ground (arith, find-entries j rows)

module _ (j : String) (f : ExportJob → ExportJob) where
  update-absent :
      (rows : JobTable) → count_where (has_id j) rows ≡ 0 → update_where (has_id j) f rows ≡ rows
  unfolding count_where update_where
  update-absent [] h = refl
  update-absent (r ∷ rows) h = ground (arith, update-absent rows)

  -- A job that is not found is not updated, and an update counts none.
  pub update-fetch-none :
      (rows : JobTable)
      → fetch j rows ≡ none
      → (update_where (has_id j) f rows ≡ rows) × (count_where (has_id j) rows ≡ 0)
  unfolding fetch count_where update_where
  update-fetch-none [] h = (refl, refl)
  update-fetch-none (r ∷ rows) h = ground (arith, update-fetch-none rows)

  -- Where ids are unique, the replacement of the record that was found is the update.
  pub replace-entries :
      ((r : ExportJob) → (f r).id ≡ r.id)
      → (rows : JobTable) (row : ExportJob) → count_where (has_id j) rows ≤ 1
      → fetch j rows ≡ some row
      → (replace (text j) (job_record (f row)) (entries rows)
          ≡ entries (update_where (has_id j) f rows))
        × (count_where (has_id j) rows ≡ 1)
  unfolding fetch count_where update_where entries replace
  replace-entries keep [] row u h = cc
  replace-entries keep (r ∷ rows) row u h =
      ground (arith, keep r, keep row, update-absent rows, replace-entries keep rows row)

-- An update that asks for more than the id.
module _ (j : String) (p : ExportJob → Bool) (f : ExportJob → ExportJob) where
  abbrev also : ExportJob → Bool
  also r = has_id j r && p r

  guarded-absent :
      (rows : JobTable)
      → count_where (has_id j) rows ≡ 0
      → (update_where also f rows ≡ rows) × (count_where also rows ≡ 0)
  unfolding count_where update_where
  guarded-absent [] h = (refl, refl)
  guarded-absent (r ∷ rows) h = ground (arith, guarded-absent rows)

  pub guarded-fetch-none :
      (rows : JobTable)
      → fetch j rows ≡ none
      → (update_where also f rows ≡ rows) × (count_where also rows ≡ 0)
  unfolding fetch count_where update_where
  guarded-fetch-none [] h = (refl, refl)
  guarded-fetch-none (r ∷ rows) h = ground (arith, guarded-fetch-none rows)

  -- It is the update by the id where the row that is found passes.
  pub guarded-true :
      (rows : JobTable) (row : ExportJob)
      → count_where (has_id j) rows ≤ 1
      → fetch j rows ≡ some row
      → p row ≡ true
      → (update_where also f rows ≡ update_where (has_id j) f rows)
        × (count_where also rows ≡ count_where (has_id j) rows)
  unfolding fetch count_where update_where
  guarded-true [] row u h e = cc
  guarded-true (r ∷ rows) row u h e =
      ground (arith, guarded-absent rows, update-absent j f rows, guarded-true rows row)

  pub guarded-false :
      (rows : JobTable) (row : ExportJob)
      → count_where (has_id j) rows ≤ 1
      → fetch j rows ≡ some row
      → p row ≡ false
      → (update_where also f rows ≡ rows) × (count_where also rows ≡ 0)
  unfolding fetch count_where update_where
  guarded-false [] row u h e = cc
  guarded-false (r ∷ rows) row u h e = ground (arith, guarded-absent rows, guarded-false rows row)

-- A test and a change of records that are those of rows.
pub update_records-entries :
    (p : DemoRecord → Bool) (g : DemoRecord → DemoRecord) (q : ExportJob → Bool)
    (f : ExportJob → ExportJob)
    → ((r : ExportJob) → p (job_record r) ≡ q r)
    → ((r : ExportJob) → g (job_record r) ≡ job_record (f r))
    → ((r : ExportJob) → (f r).id ≡ r.id)
    → (rows : JobTable)
    → (update_records p g (entries rows) ≡ entries (update_where q f rows))
      × (count_records p (entries rows) ≡ count_where q rows)
unfolding update_records count_records entries update_where count_where
update_records-entries p g q f test change keep [] = (refl, refl)
update_records-entries p g q f test change keep (r ∷ rows) =
    ground (arith, test r, change r, keep r, update_records-entries p g q f test change keep rows)
