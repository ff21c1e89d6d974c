-- ===== src/Demo/Jobs.antt =====
-- db/demo_pool.py: the statements that insert into export_jobs and that read it.
pub mod Update
use databridge.Base.{
  ℕ, zero, suc, ◌+◌, Bool, true, false, not, ◌&&◌, ◌||◌, Option, none, some, List, [], ◌∷◌, String,
  str_eq, ltb, if◌then◌else◌,
}
use databridge.Base.Lists.{length, take, drop, keep_if}
use databridge.Jobs.{Instant}
use databridge.Demo.{
  Cell, null, text, number, instant, same_cell, DemoRecord, put, column, Records, find, replace,
  values_onto, Mode, fetch, fetchval, Answer, nothing, row, rows, value, count, status_line, raises,
}
use databridge.Demo.Sql.{contains, assignments, where_id}

-- `args[-1]`
abbrev last : List Cell → Option Cell
last [] = none
last (a ∷ []) = some a
last (a ∷ b ∷ as') = last (b ∷ as')

-- `args[idx - 1]` where `idx <= len(args)`
abbrev pub arg_at : ℕ → List Cell → Option Cell
arg_at zero args = last args
arg_at (suc i) [] = none
arg_at (suc zero) (a ∷ as') = some a
arg_at (suc (suc i)) (a ∷ as') = arg_at (suc i) as'

-- `_job_insert`: the id is what uuid4() returns, the instant what _now() does
unfoldable pub job_insert : String → Instant → List Cell → Records → Records × Answer
job_insert job_id now
      (org ∷ user ∷ type ∷ ref ∷ filter ∷ sink ∷ dataset ∷ resolution ∷ fields ∷ prefix ∷ asset_sink
        ∷ asset_set ∷ rules ∷ sampling ∷ url ∷ enabled ∷ template ∷ more)
      jobs =
    let rec : DemoRecord =
      ("id", text job_id)
      ∷ ("org_id", org)
      ∷ ("user_id", user)
      ∷ ("datasource_type", type)
      ∷ ("datasource_ref", ref)
      ∷ ("datasource_filter", filter)
      ∷ ("datasink_name", sink)
      ∷ ("destination_dataset", dataset)
      ∷ ("asset_resolution", resolution)
      ∷ ("asset_url_fields", fields)
      ∷ ("asset_url_prefix", prefix)
      ∷ ("asset_datasink_name", asset_sink)
      ∷ ("asset_dataset", asset_set)
      ∷ ("status", text "pending")
      ∷ ("records_total", null)
      ∷ ("records_processed", number 0)
      ∷ ("records_skipped", number 0)
      ∷ ("asset_errors", number 0)
      ∷ ("error_message", null)
      ∷ ("created_at", instant now)
      ∷ ("started_at", null)
      ∷ ("completed_at", null)
      ∷ ("last_heartbeat_at", null)
      ∷ ("masking_rules", rules)
      ∷ ("sampling_config", sampling)
      ∷ ("webhook_url", url)
      ∷ ("webhook_enabled", enabled)
      ∷ ("webhook_payload_template", template)
      ∷ ("external_dataset_id", null)
      ∷ ("external_asset_dataset_id", null)
      ∷ [] in
    ((job_id, rec) ∷ jobs, row rec)
job_insert job_id now _ jobs = (jobs, raises "IndexError")

-- `filters[field] = value` for each match whose number is in range
abbrev add_filter : String → Option Cell → DemoRecord → DemoRecord
add_filter field none filters = filters
add_filter field (some v) filters = put field v filters

abbrev filters_of : List (String × ℕ) → List Cell → DemoRecord → DemoRecord
filters_of [] args filters = filters
filters_of ((field, idx) ∷ ms) args filters =
    filters_of ms args (add_filter field (arg_at idx args) filters)

-- `j.get(field) == value` for every filter
abbrev meets : DemoRecord → DemoRecord → Bool
meets [] rec = true
meets ((field, v) ∷ filters) rec = same_cell (column field rec) v && meets filters rec

-- `j["status"] in ("pending", "running")`
abbrev pub active_cell : Cell → Bool
active_cell v = same_cell v (text "pending") || same_cell v (text "running")

-- `_apply_job_filters`: whether it keeps a record
unfoldable pub job_filter : String → List Cell → DemoRecord → Bool
job_filter s args rec =
    meets (filters_of (assignments s) args []) rec
    && (not (contains "status in ('pending','running')" s) || active_cell (column "status" rec))

-- `r["created_at"]`, the instant that `_job_insert` wrote
abbrev pub created : DemoRecord → Instant
created rec = elim (column "created_at" rec) [ instant t ↦ t | _ ↦ 0 ]

-- `jobs.sort(key=…, reverse=True)` leaves equal instants in their order.
unfoldable pub insert_record : DemoRecord → List DemoRecord → List DemoRecord
insert_record rec [] = rec ∷ []
insert_record rec (r ∷ rs) =
    let rest = insert_record rec rs in
    if ltb (created rec) (created r) then r ∷ rest else rec ∷ r ∷ rs

unfoldable pub sort_records : List DemoRecord → List DemoRecord
sort_records [] = []
sort_records (rec ∷ rs) = insert_record rec (sort_records rs)

-- `_job_count`
unfoldable pub job_count : String → List Cell → Records → ℕ
job_count s args jobs = length (keep_if (job_filter s args) (values_onto [] jobs))

-- The filter arguments, the limit and the offset.
abbrev split_args : List Cell → List Cell × Cell × Cell
split_args [] = ([], number 20, number 0)
split_args (a ∷ []) = ([], number 20, number 0)
split_args (a ∷ b ∷ []) = ([], a, b)
split_args (a ∷ b ∷ c ∷ as') = let (fs, l, o) = split_args (b ∷ c ∷ as') in (a ∷ fs, l, o)

abbrev pub page_of : ℕ → ℕ → List DemoRecord → List DemoRecord
page_of limit offset jobs = take limit (drop offset jobs)

-- `_job_list`; `int()` of another cell than a number is not among the calls
abbrev list_with : String → List Cell × Cell × Cell → Records → Answer
list_with s (args, number limit, number offset) jobs =
    rows (page_of limit offset (sort_records (keep_if (job_filter s args) (values_onto [] jobs))))
list_with s (args, _, _) jobs = raises "TypeError"

unfoldable pub job_list : String → List Cell → Records → Answer
job_list s args jobs = list_with s (split_args args) jobs

abbrev pub record_or_none : Option DemoRecord → Answer
record_or_none none = nothing
record_or_none (some rec) = row rec

abbrev pub status_or_none : Option DemoRecord → Answer
status_or_none none = nothing
status_or_none (some rec) = value (column "status" rec)

abbrev first_arg : List Cell → (Cell → Answer) → Answer
first_arg [] f = raises "IndexError"
first_arg (a ∷ as') f = f a

abbrev select_records : String → List Cell → Bool → Records → Answer
select_records s args is_fetch jobs =
    if contains "where id = $1" s
    then first_arg args (λ id. record_or_none (find id jobs))
    else if is_fetch
    then job_list s args jobs
    else nothing

-- `_job_select`
unfoldable pub job_select : String → List Cell → Mode → Records → Answer
job_select s args fetchval jobs =
    if contains "select status from export_jobs" s
    then first_arg args (λ id. status_or_none (find id jobs))
    else if contains "count(*)" s
    then count (job_count s args jobs)
    else select_records s args false jobs
job_select s args fetch jobs = select_records s args true jobs
job_select s args _ jobs = select_records s args false jobs
