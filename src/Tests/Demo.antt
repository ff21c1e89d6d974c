-- ===== src/Tests/Demo.antt =====
-- The demo pool with a few jobs.
use mathlib.Core.Option
use databridge.Base.{◌≡◌, refl, none, some, List, [], ◌∷◌, map, then_option}
use databridge.Jobs.{running, completed}
use databridge.Jobs.Store.{fetch, count_where, new_row, list_export_jobs, is_active_of}
use databridge.Jobs.Table.{UniqueIds}
use databridge.Demo.{DemoPool, rows, count}
use databridge.Demo.Rows.{job_record}
use databridge.Demo.Rows.Response.{row_to_response}
use databridge.Demo.Rows.Back.{without_extraction}
use databridge.Demo.Jobs.{record_or_none, status_or_none}
use databridge.Demo.Table.{entries}
use databridge.Demo.Statements
use databridge.Demo.Statements.{Statement, run_on_pool}
use databridge.Demo.Refines.{Represents}
use databridge.Demo.Runs.{run_pool, run_table, run_pool-Refines}
use databridge.Demo.Queries.{select_job, select_status, select_active, list_on_pool}
use databridge.Demo.Queries.Listing.{oldest_onto}
use databridge.Demo.Queries.Answers.{queries_refine}
use databridge.Demo.Loss.{answered_row, insert_drops_extraction}
use databridge.Tests.Table.{ask, table, table-UniqueIds}

abbrev pool : DemoPool
pool = record { connections = []; jobs = entries table }

abbrev statements : List Statement
statements =
    Statements.insert ask "acme" "ann" "c" 40
    ∷ Statements.set_job_status "c" running none 50
    ∷ Statements.set_progress "c" 5 1 0 60
    ∷ Statements.cancel "a"
    ∷ Statements.set_job_status "c" completed none 70
    ∷ Statements.expire_pending "acme" 9000000000
    ∷ []

run_pool-Refines_example :
    Represents (run_pool statements pool).0 (run_table statements table).0
    × UniqueIds (run_table statements table).0
    × ((run_pool statements pool).1 ≡ (run_table statements table).1)
unfolding count_where new_row
run_pool-Refines_example =
    run_pool-Refines statements pool table refl table-UniqueIds
      (refl, (tt, (tt, (tt, (tt, (tt, tt))))))

queries_refine_example :
    (select_job "a" pool ≡ record_or_none (Option.map job_record (fetch "a" table)))
    × (select_status "a" pool ≡ status_or_none (Option.map job_record (fetch "a" table)))
    × (select_active "acme" pool ≡ count (count_where (is_active_of "acme") table))
    × (list_on_pool "acme" "user" 1 20 (some "pending") pool ≡ (
      rows (
          map job_record
            (list_export_jobs "acme" "user" 1 20 (some "pending") (oldest_onto [] table)).0),
      count (list_export_jobs "acme" "user" 1 20 (some "pending") table).1,
    ))
queries_refine_example = queries_refine pool table refl "a" "acme" "user" 1 20 (some "pending")

insert_drops_extraction_example :
    then_option
      (answered_row
        (select_job "c" (run_on_pool (Statements.insert ask "acme" "ann" "c" 40) pool).0))
      row_to_response
    ≡ some (without_extraction (new_row ask "acme" "ann" "c" 40))
insert_drops_extraction_example = insert_drops_extraction ask "acme" "ann" "c" 40 pool
