-- ===== src/Demo/Runs.antt =====
-- db/demo_pool.py: any sequence of the statements that change export_jobs.
use databridge.Base.{◌≡◌, refl, List, [], ◌∷◌, arith, eq_iff}
use databridge.Jobs.{ExportJob, JobTable, pending, running, completed, failed, cancelled}
use databridge.Jobs.Store.{
  has_id, count_where, new_row, update_export_job_status, update_export_progress,
  update_records_total, update_external_dataset_id, update_external_asset_dataset_id,
}
use databridge.Jobs.Table.{UniqueIds, UniqueIds-update_where}
use databridge.Demo.{DemoPool, Answer}
use databridge.Demo.Statements.{Statement, run_on_pool, run_on_table, answer_of}
use databridge.Demo.Refines.{Represents, Fresh, run_on_pool-Refines}

-- The pool after the statements, and what each of them answers.
unfoldable pub run_pool : List Statement → DemoPool → DemoPool × List Answer
run_pool [] pool = (pool, [])
run_pool (st ∷ sts) pool =
    let (pool', answer) = run_on_pool st pool in
    let (last, more) = run_pool sts pool' in (last, answer ∷ more)

unfoldable pub run_table : List Statement → JobTable → JobTable × List Answer
run_table [] rows = (rows, [])
run_table (st ∷ sts) rows =
    let (last, more) = run_table sts (run_on_table st rows) in (last, answer_of st rows ∷ more)

-- Each insertion is under an id that no row has at that time.
abbrev AllFresh : List Statement → JobTable → Type 0
AllFresh [] rows = Unit
AllFresh (st ∷ sts) rows = Fresh st rows × AllFresh sts (run_on_table st rows)

UniqueIds-insert :
    (row : ExportJob) (rows : JobTable)
    → count_where (has_id row.id) rows ≡ 0
    → UniqueIds rows
    → UniqueIds (row ∷ rows)
unfolding count_where
UniqueIds-insert row rows fresh unique j = ground (arith, eq_iff row.id j, unique j)

UniqueIds-run_on_table :
    (st : Statement) (rows : JobTable)
    → UniqueIds rows
    → Fresh st rows
    → UniqueIds (run_on_table st rows)
unfolding run_on_table new_row update_export_job_status update_export_progress update_records_total
    update_external_dataset_id update_external_asset_dataset_id
UniqueIds-run_on_table (Statement.insert body org_id user_id job_id now) rows u fresh =
    UniqueIds-insert (new_row body org_id user_id job_id now) rows fresh u
UniqueIds-run_on_table (Statement.set_job_status j pending message now) rows u fresh =
    UniqueIds-update_where _ _ rows (λ r. refl) u
UniqueIds-run_on_table (Statement.set_job_status j running message now) rows u fresh =
    UniqueIds-update_where _ _ rows (λ r. refl) u
UniqueIds-run_on_table (Statement.set_job_status j completed message now) rows u fresh =
    UniqueIds-update_where _ _ rows (λ r. refl) u
UniqueIds-run_on_table (Statement.set_job_status j failed message now) rows u fresh =
    UniqueIds-update_where _ _ rows (λ r. refl) u
UniqueIds-run_on_table (Statement.set_job_status j cancelled message now) rows u fresh =
    UniqueIds-update_where _ _ rows (λ r. refl) u
UniqueIds-run_on_table (Statement.set_progress j n s e now) rows u fresh =
    UniqueIds-update_where _ _ rows (λ r. refl) u
UniqueIds-run_on_table (Statement.set_total j n) rows u fresh =
    UniqueIds-update_where _ _ rows (λ r. refl) u
UniqueIds-run_on_table (Statement.set_external j external) rows u fresh =
    UniqueIds-update_where _ _ rows (λ r. refl) u
UniqueIds-run_on_table (Statement.set_external_asset j external) rows u fresh =
    UniqueIds-update_where _ _ rows (λ r. refl) u
UniqueIds-run_on_table (Statement.cancel j) rows u fresh =
    UniqueIds-update_where _ _ rows (λ r. refl) u
UniqueIds-run_on_table (Statement.expire_running org_id now) rows u fresh =
    UniqueIds-update_where _ _ rows (λ r. refl) u
UniqueIds-run_on_table (Statement.expire_pending org_id now) rows u fresh =
    UniqueIds-update_where _ _ rows (λ r. refl) u

-- From a pool that keeps the rows of a table with unique ids, any sequence of statements whose
-- insertions are under fresh ids leaves the pool keeping the rows that the table has after the same
-- sequence, their ids unique, and gives the same answers.
pub run_pool-Refines :
    (sts : List Statement) (pool : DemoPool) (rows : JobTable)
    → Represents pool rows
    → UniqueIds rows
    → AllFresh sts rows
    → Represents (run_pool sts pool).0 (run_table sts rows).0
      × UniqueIds (run_table sts rows).0
      × ((run_pool sts pool).1 ≡ (run_table sts rows).1)
unfolding run_pool run_table
run_pool-Refines [] pool rows same u fresh = (same, u, refl)
run_pool-Refines (st ∷ sts) pool rows same u (fresh, more) =
    let (kept, answer) = run_on_pool-Refines st pool rows same u in
    let (after, unique, answers) =
      run_pool-Refines sts (run_on_pool st pool).0 (run_on_table st rows) kept
        (UniqueIds-run_on_table st rows u fresh) more in
    (after, unique, rw (answer, answers) refl)
