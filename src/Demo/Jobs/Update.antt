-- ===== src/Demo/Jobs/Update.antt =====
-- db/demo_pool.py: the statements that change rows of export_jobs, `_job_update`.
use databridge.Base.{
  ℕ, ◌+◌, Bool, true, false, not, ◌&&◌, Option, none, some, List, [], ◌∷◌, String, str_eq, ltb,
  if◌then◌else◌,
}
use databridge.Demo.{
  Cell, text, instant, same_cell, DemoRecord, put, column, Records, find, replace, Answer,
  status_line, raises,
}
use databridge.Demo.Sql.{contains, assignments, where_id}
use databridge.Demo.Jobs.{active_cell, arg_at}

-- The first branch of `_job_update`.
abbrev pub cancel_record : Cell → Records → Option DemoRecord → Records × Answer
cancel_record id jobs none = (jobs, status_line "UPDATE" 0)
cancel_record id jobs (some rec) =
    if active_cell (column "status" rec)
    then (replace id (put "status" (text "cancelled") rec) jobs, status_line "UPDATE" 1)
    else (jobs, status_line "UPDATE" 0)

-- Each record that passes the test is replaced under its key; the number of them.
abbrev change_record : Bool → (DemoRecord → DemoRecord) → DemoRecord → DemoRecord
change_record true f rec = f rec
change_record false f rec = rec

unfoldable pub update_records : (DemoRecord → Bool) → (DemoRecord → DemoRecord) → Records → Records
update_records p f [] = []
update_records p f ((j, rec) ∷ d) = (j, change_record (p rec) f rec) ∷ update_records p f d

unfoldable pub count_records : (DemoRecord → Bool) → Records → ℕ
count_records p [] = 0
count_records p ((j, rec) ∷ d) = let n = count_records p d in if p rec then n + 1 else n

-- Where there is a cutoff, whether the instant is missing or before it.
abbrev before_cutoff : Option Cell → Cell → Bool
before_cutoff (some (instant cutoff)) (instant at) = ltb at cutoff
before_cutoff _ _ = true

abbrev of_org_with : Cell → String → DemoRecord → Bool
of_org_with org status rec =
    same_cell (column "org_id" rec) org && same_cell (column "status" rec) (text status)

abbrev pub fail_record : String → DemoRecord → DemoRecord
fail_record message rec = put "error_message" (text message) (put "status" (text "failed") rec)

abbrev pub unresponsive_record : Cell → Option Cell → DemoRecord → Bool
unresponsive_record org cutoff rec =
    of_org_with org "running" rec && before_cutoff cutoff (column "last_heartbeat_at" rec)

abbrev pub unstarted_record : Cell → Option Cell → DemoRecord → Bool
unstarted_record org cutoff rec =
    of_org_with org "pending" rec && before_cutoff cutoff (column "created_at" rec)

abbrev pub fail_where : (DemoRecord → Bool) → String → Records → Records × Answer
fail_where p message jobs =
    (update_records p (fail_record message) jobs, status_line "UPDATE" (count_records p jobs))

-- The second branch of `_job_update`.
abbrev fail_stale : String → List Cell → Records → Records × Answer
fail_stale s [] jobs = (jobs, status_line "UPDATE" 0)
fail_stale s (org ∷ more) jobs =
    if not (contains "org_id=$1" s)
    then (jobs, status_line "UPDATE" 0)
    else if contains "status = 'running'" s
    then fail_where (unresponsive_record org (arg_at 1 more)) "job timed out (no heartbeat)" jobs
    else if contains "status = 'pending'" s
    then fail_where (unstarted_record org (arg_at 1 more)) "job timed out (never started)" jobs
    else (jobs, status_line "UPDATE" 0)

-- `new_rec[field] = args[fidx - 1]` for each match whose field is no key
abbrev assign : Bool → String → Option Cell → DemoRecord → DemoRecord
assign false field (some v) rec = put field v rec
assign _ field _ rec = rec

unfoldable pub assign_all :
    (String → Bool) → List (String × ℕ) → List Cell → DemoRecord → DemoRecord
assign_all is_key [] args rec = rec
assign_all is_key ((field, idx) ∷ ms) args rec =
    assign_all is_key ms args (assign (is_key field) field (arg_at idx args) rec)

abbrev pub is_id : String → Bool
is_id field = str_eq field "id"

abbrev pub update_found : String → List Cell → Cell → Records → Option DemoRecord → Records × Answer
update_found s args id jobs none = (jobs, status_line "UPDATE" 0)
update_found s args id jobs (some rec) =
    (replace id (assign_all is_id (assignments s) args rec) jobs, status_line "UPDATE" 1)

abbrev update_by_id : String → List Cell → Records → Option Cell → Records × Answer
update_by_id s args jobs none = (jobs, status_line "UPDATE" 0)
update_by_id s args jobs (some id) = update_found s args id jobs (find id jobs)

abbrev numbered : Option ℕ → List Cell → Option Cell
numbered none args = none
numbered (some idx) args = arg_at idx args

abbrev cancel_first : List Cell → Records → Records × Answer
cancel_first [] jobs = (jobs, raises "IndexError")
cancel_first (id ∷ more) jobs = cancel_record id jobs (find id jobs)

-- `_job_update`
unfoldable pub job_update : String → List Cell → Records → Records × Answer
job_update s args jobs =
    if contains "status='cancelled'" s
    then cancel_first args jobs
    else if contains "status='failed'" s
    then fail_stale s args jobs
    else update_by_id s args jobs (numbered (where_id s) args)
