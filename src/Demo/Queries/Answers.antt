-- ===== src/Demo/Queries/Answers.antt =====
-- export/db.py on db/demo_pool.py: the answers to the statements that read.
use Prim.Native.String.{◌++◌ as append}
use mathlib.Core.Option
use mathlib.Core.Path.{fun_ext}
use databridge.Base.{
  ℕ, ◌-◌, ◌*◌, ◌≡◌, refl, ap, ◌∙◌, Bool, true, false, not, ◌&&◌, ◌||◌, Option, none, some, [], ◌∷◌,
  map, String, arith, str_eq, or_else,
}
use databridge.Base.Lists.{take, drop, keep_if}
use databridge.Jobs.{ExportJob, JobTable, status_text}
use databridge.Jobs.Store.{
  fetch, count_where, listed, order_by_created, list_export_jobs, is_active_of,
}
use databridge.Demo.{text, put, entry, column, values_onto, DemoPool, Answer, rows, count}
use databridge.Demo.Sql.{normalise, starts_with, contains, assignments}
use databridge.Demo.Rows.{job_record}
use databridge.Demo.Jobs.{
  job_filter, job_count, job_list, job_select, sort_records, page_of, record_or_none,
  status_or_none,
}
use databridge.Demo.Dispatch.{dispatch, dispatch_normal}
use databridge.Demo.Table.{find-entries}
use databridge.Demo.Refines.{Represents, active_cell-status_text}
use databridge.Demo.Queries.{
  select_job, select_status, select_active, list_on_pool, where_sql, order_sql, list_args, list_by,
  filter_given,
}
use databridge.Demo.Queries.Listing.{oldest_onto, job_count-entries, page-entries}

abbrev active_sql : String
active_sql = "select count(*) from export_jobs where org_id=$1 and status in ('pending','running')"

active_test :
    (org_id : String) (r : ExportJob)
    → job_filter active_sql (text org_id ∷ []) (job_record r) ≡ is_active_of org_id r
unfolding job_filter assignments contains column entry job_record put
active_test org_id r = rw active_cell-status_text (ground arith)

abbrev pub count_sql : Bool → Bool → String
count_sql by_org by_status = append "SELECT COUNT(*) FROM export_jobs " (where_sql by_org by_status)

abbrev pub page_sql : Bool → Bool → String
page_sql by_org by_status =
    append "SELECT * FROM export_jobs "
      (append (where_sql by_org by_status) (order_sql by_org by_status))

-- The conditions that are put into the statement, on a row.
abbrev conditions : Bool → String → Bool → String → ExportJob → Bool
conditions by_org org by_status status r =
    (not by_org || str_eq r.org_id org) && (not by_status || str_eq (status_text r.status) status)

count_test :
    (by_org : Bool) (org : String) (by_status : Bool) (status : String) (r : ExportJob)
    → job_filter
        (normalise (count_sql by_org by_status))
        (list_args by_org org by_status status [])
        (job_record r)
      ≡ conditions by_org org by_status status r
unfolding job_filter assignments contains column entry job_record normalise put
count_test false org false status r = refl
count_test true org false status r = ground arith
count_test false org true status r = ground arith
count_test true org true status r = ground arith

page_test :
    (by_org : Bool) (org : String) (by_status : Bool) (status : String) (r : ExportJob)
    → job_filter
        (normalise (page_sql by_org by_status))
        (list_args by_org org by_status status [])
        (job_record r)
      ≡ conditions by_org org by_status status r
unfolding job_filter assignments contains column entry job_record normalise put
page_test false org false status r = refl
page_test true org false status r = ground arith
page_test false org true status r = ground arith
page_test true org true status r = ground arith

conditions-listed :
    (org role : String) (status_filter : Option String) (r : ExportJob)
    → conditions
        (not (str_eq role "super_admin"))
        org
        (filter_given status_filter)
        (or_else status_filter "")
        r
      ≡ listed org role status_filter r
unfolding listed
conditions-listed org role none r = ground arith
conditions-listed org role (some s) r = ground arith

module _ (pool : DemoPool) (rs : JobTable) (same : Represents pool rs) where
  select_job-entries :
      (j : String) → select_job j pool ≡ record_or_none (Option.map job_record (fetch j rs))
  unfolding select_job dispatch dispatch_normal normalise starts_with contains job_select
  select_job-entries j = rw (same, find-entries) refl

  select_status-entries :
      (j : String) → select_status j pool ≡ status_or_none (Option.map job_record (fetch j rs))
  unfolding select_status dispatch dispatch_normal normalise starts_with contains job_select
  select_status-entries j = rw (same, find-entries) refl

  select_active-entries :
      (org_id : String) → select_active org_id pool ≡ count (count_where (is_active_of org_id) rs)
  unfolding select_active dispatch dispatch_normal normalise starts_with contains job_select
  select_active-entries org_id = ap count (
      job_count-entries pool rs same active_sql (text org_id ∷ []) (is_active_of org_id)
        (active_test org_id))

  abbrev listing_of : (ExportJob → Bool) → ℕ → ℕ → Answer × Answer
  listing_of p page size = (
    rows (
        map job_record (
          take size (drop ((page - 1) * size) (order_by_created (keep_if p (oldest_onto [] rs)))))),
    count (count_where p rs),
  )

  abbrev listing : Bool → String → Bool → String → ℕ → ℕ → Answer × Answer
  listing by_org org by_status status page size =
      listing_of (conditions by_org org by_status status) page size

  -- What the two statements read, put together.
  read_by :
      (by_org : Bool) (org : String) (by_status : Bool) (status : String) (page size : ℕ)
      → ◌≡◌ {A = Answer × Answer}
          (
            rows (
                page_of size ((page - 1) * size) (
                  sort_records (
                    keep_if
                      (job_filter
                        (normalise (page_sql by_org by_status))
                        (list_args by_org org by_status status []))
                      (values_onto [] pool.jobs)))),
            count (
                job_count
                  (normalise (count_sql by_org by_status))
                  (list_args by_org org by_status status [])
                  pool.jobs),
          )
          (listing by_org org by_status status page size)
  read_by by_org org by_status status page size =
      rw
        (
          page-entries pool rs same (normalise (page_sql by_org by_status))
              (list_args by_org org by_status status []) (conditions by_org org by_status status)
              size ((page - 1) * size) (page_test by_org org by_status status),
          job_count-entries pool rs same (normalise (count_sql by_org by_status))
              (list_args by_org org by_status status []) (conditions by_org org by_status status)
              (count_test by_org org by_status status),
        )
        refl

  list_by-entries :
      (by_org : Bool) (org : String) (by_status : Bool) (status : String) (page size : ℕ)
      → list_by by_org org by_status status page size pool
        ≡ listing by_org org by_status status page size
  unfolding dispatch dispatch_normal normalise starts_with contains job_select job_list
  list_by-entries false org false status page size = read_by false org false status page size
  list_by-entries true org false status page size = read_by true org false status page size
  list_by-entries false org true status page size = read_by false org true status page size
  list_by-entries true org true status page size = read_by true org true status page size

  -- On a pool that keeps the rows of a table, the statements that read it answer what the table
  -- holds: the record of the job under an id, its status, the number of active jobs of an
  -- organisation, and the page and the total of `list_export_jobs`, where the page is that of the
  -- table with its rows in the order of insertion.
  pub queries_refine :
      (j org_id role : String) (page size : ℕ) (status_filter : Option String)
      → (select_job j pool ≡ record_or_none (Option.map job_record (fetch j rs)))
        × (select_status j pool ≡ status_or_none (Option.map job_record (fetch j rs)))
        × (select_active org_id pool ≡ count (count_where (is_active_of org_id) rs))
        × (list_on_pool org_id role page size status_filter pool ≡ (
          rows (
              map job_record
                (list_export_jobs org_id role page size status_filter (oldest_onto [] rs)).0),
          count (list_export_jobs org_id role page size status_filter rs).1,
        ))
  unfolding list_on_pool list_export_jobs
  queries_refine j org_id role page size status_filter = (
    select_job-entries j,
    select_status-entries j,
    select_active-entries org_id,
    list_by-entries (not (str_eq role "super_admin")) org_id (filter_given status_filter)
          (or_else status_filter "") page size
        ∙ ap (λ (p : ExportJob → Bool). listing_of p page size)
            (fun_ext (conditions-listed org_id role status_filter)),
  )
