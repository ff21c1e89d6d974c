-- ===== src/Demo/Queries.antt =====
-- export/db.py on db/demo_pool.py: the statements that only read export_jobs.
pub mod Listing
pub mod Answers
use Prim.Native.String.{◌++◌ as append}
use mathlib.Core.Option
use mathlib.Core.Path.{fun_ext}
use databridge.Base.{
  ℕ, zero, suc, ◌+◌, ◌-◌, ◌*◌, ◌≡◌, refl, ap, ◌∙◌, Bool, true, false, not, ◌&&◌, ◌||◌, Option, none,
  some, List, [], ◌∷◌, map, String, arith, str_eq, Bool-cases, inl, inr, or_else,
}
use databridge.Base.Lists.{length, take, drop, keep_if, length-map}
use databridge.Jobs.{ExportJob, JobTable, status_text}
use databridge.Jobs.Store.{
  fetch, count_where, listed, order_by_created, insert_by_created, list_export_jobs, is_active_of,
}
use databridge.Demo.{
  Cell, text, number, put, DemoRecord, entry, column, values_onto, DemoPool, Mode, fetchrow,
  fetchval, Answer, rows, count,
}
use databridge.Demo.Sql.{normalise, starts_with, contains, assignments}
use databridge.Demo.Rows.{job_record}
use databridge.Demo.Jobs.{
  job_filter, job_count, job_list, job_select, insert_record, sort_records, page_of, record_or_none,
  status_or_none,
}
use databridge.Demo.Dispatch.{dispatch, dispatch_normal}
use databridge.Demo.Table.{entries, find-entries}
use databridge.Demo.Refines.{Represents, active_cell-status_text}

-- `SELECT * FROM export_jobs WHERE id = $1`, as `get_export_job` and `cancel_export_job` use it
unfoldable pub select_job : String → DemoPool → Answer
select_job job_id pool =
    (dispatch "SELECT * FROM export_jobs WHERE id = $1" (text job_id ∷ []) fetchrow "" 0 pool).1

-- the statement of `is_job_cancelled`
unfoldable pub select_status : String → DemoPool → Answer
select_status job_id pool =
    (dispatch "SELECT status FROM export_jobs WHERE id = $1" (text job_id ∷ []) fetchval "" 0
      pool).1

-- the count of `count_active_jobs_for_org`
unfoldable pub select_active : String → DemoPool → Answer
select_active org_id pool =
    (dispatch "SELECT COUNT(*) FROM export_jobs WHERE org_id=$1 AND status IN ('pending','running')"
      (text org_id ∷ []) fetchval "" 0 pool).1

-- The statements and arguments of `list_export_jobs`, by whether the caller is no super admin and
-- whether there is a status filter.
abbrev pub where_sql : Bool → Bool → String
where_sql false false = ""
where_sql true false = "WHERE org_id = $1"
where_sql false true = "WHERE status = $1"
where_sql true true = "WHERE org_id = $1 AND status = $2"

abbrev pub order_sql : Bool → Bool → String
order_sql false false = " ORDER BY created_at DESC LIMIT $1 OFFSET $2"
order_sql true true = " ORDER BY created_at DESC LIMIT $3 OFFSET $4"
order_sql _ _ = " ORDER BY created_at DESC LIMIT $2 OFFSET $3"

abbrev pub list_args : Bool → String → Bool → String → List Cell → List Cell
list_args false org false status more = more
list_args true org false status more = text org ∷ more
list_args false org true status more = text status ∷ more
list_args true org true status more = text org ∷ text status ∷ more

abbrev pub list_by : Bool → String → Bool → String → ℕ → ℕ → DemoPool → Answer × Answer
list_by by_org org by_status status page page_size pool = (
  (dispatch
      (append "SELECT * FROM export_jobs "
        (append (where_sql by_org by_status) (order_sql by_org by_status)))
      (list_args by_org org by_status status
        (number page_size ∷ number ((page - 1) * page_size) ∷ []))
      Mode.fetch "" 0 pool).1,
  (dispatch (append "SELECT COUNT(*) FROM export_jobs " (where_sql by_org by_status))
      (list_args by_org org by_status status []) fetchval "" 0 pool).1,
)

abbrev pub filter_given : Option String → Bool
filter_given none = false
filter_given (some s) = not (str_eq s "")

-- `list_export_jobs` on the pool: what the two statements answer
unfoldable pub list_on_pool : String → String → ℕ → ℕ → Option String → DemoPool → Answer × Answer
list_on_pool org_id role page page_size status_filter pool =
    list_by (not (str_eq role "super_admin")) org_id (filter_given status_filter)
      (or_else status_filter "") page page_size pool
