-- ===== src/Demo/Loss.antt =====
-- db/demo_pool.py: a job that is inserted and read again in demo mode.
use databridge.Base.{◌≡◌, Option, none, some, String, then_option, str_eq_self}
use databridge.Jobs.{Instant, ExportJobCreate}
use databridge.Jobs.Store.{new_row}
use databridge.Demo.{DemoRecord, DemoPool, find, Answer, row}
use databridge.Demo.Sql.{normalise, starts_with, contains}
use databridge.Demo.Rows.{job_record}
use databridge.Demo.Rows.Response.{row_to_response}
use databridge.Demo.Rows.Back.{without_extraction, row_to_response-job_record}
use databridge.Demo.Jobs.{job_insert, job_select}
use databridge.Demo.Dispatch.{dispatch, dispatch_normal}
use databridge.Demo.Statements
use databridge.Demo.Statements.{sql, args, run_on_pool}
use databridge.Demo.Queries.{select_job}

-- The record of a row that was answered.
abbrev pub answered_row : Answer → Option DemoRecord
answered_row (row rec) = some rec
answered_row _ = none

-- A job that was inserted in demo mode is read back, whatever the pool held, as the job that was
-- asked for with field extraction switched off and no path, also if it was asked for with them.
pub insert_drops_extraction :
    (body : ExportJobCreate) (org_id user_id job_id : String) (now : Instant) (pool : DemoPool)
    → then_option
        (answered_row (
          select_job job_id
            (run_on_pool (Statements.insert body org_id user_id job_id now) pool).0))
        row_to_response
      ≡ some (without_extraction (new_row body org_id user_id job_id now))
unfolding select_job run_on_pool dispatch dispatch_normal sql args normalise starts_with contains
    job_insert job_select find job_record new_row
insert_drops_extraction body org_id user_id job_id now pool =
    rw (str_eq_self job_id) (row_to_response-job_record (new_row body org_id user_id job_id now))
