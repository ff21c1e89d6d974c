-- ===== src/Tests/Table.antt =====
-- The table of export jobs with a few rows.
use mathlib.Core.Option
use mathlib.Core.List.{Perm}
use databridge.Base.{
  inr, ◌≡◌, ◌↔◌, refl, true, false, ◌&&◌, none, some, [], ◌∷◌, arith, str_eq, if◌then◌else◌, eq_iff,
}
use databridge.Base.Lists.{keep_if}
use databridge.Jobs.{failed, ExportJobCreate, ExportJob, JobTable, connection}
use databridge.Jobs.Store.{
  fetch, new_row, get_export_job, cancel_export_job, is_job_cancelled, count_where, set_cancelled,
  list_export_jobs, listed, count_active_jobs_for_org, is_never_started,
}
use databridge.Jobs.Sweep.{ttl_purge_jobs}
use databridge.Jobs.Table.{UniqueIds}
use databridge.Jobs.Access.{MaySee, get_export_job_iff}
use databridge.Jobs.Cancel.{is_seen_active, cancel_export_job_lem}
use databridge.Jobs.Listing.{StrictlyNewestFirst, pages_upto, list_export_jobs-all}
use databridge.Jobs.Lifecycle.{
  started, succeeded, create, report, cancel, apply, run, AllTimed, run-AllTimed,
}
use databridge.Jobs.Overwrite.{report_hides_cancel, expired_never_purged}

abbrev pub ask : ExportJobCreate
ask = record {
  datasource_type = connection;
  datasource_ref = "c1";
  datasource_filter = record {
    query = "";
    start = none;
    end = none;
    time_field = none;
    limit = 50;
  };
  datasink_name = "out";
  destination_dataset = "traces";
  asset_resolution = false;
  asset_url_fields = [];
  asset_url_prefix = "";
  asset_datasink_name = none;
  asset_dataset = none;
  masking_rules = [];
  sampling_config = none;
  webhook_url = none;
  webhook_enabled = false;
  webhook_payload_template = none;
  field_extraction = true;
  field_extraction_path = "body";
}

abbrev pub job_a : ExportJob
job_a = new_row ask "acme" "ann" "a" 10

abbrev job_b : ExportJob
job_b = new_row ask "acme" "bob" "b" 20

abbrev pub table : JobTable
table = job_b ∷ job_a ∷ []

pub table-UniqueIds : UniqueIds table
unfolding count_where new_row
table-UniqueIds j = ground (arith, eq_iff "a" j, eq_iff "b" j, eq_iff "a" "b")

get_export_job_iff_example :
    (get_export_job "a" "acme" "ann" "user" table ≡ some job_a)
    ↔ ((fetch "a" table ≡ some job_a) × MaySee "acme" "ann" "user" job_a)
get_export_job_iff_example = get_export_job_iff "a" "acme" "ann" "user" table job_a

report_hides_cancel_example :
    is_job_cancelled "a"
      (apply (report "a" started 30) (cancel_export_job "a" "acme" "root" "org_admin" table).0)
    ≡ false
report_hides_cancel_example =
    report_hides_cancel "a" started 30 (cancel_export_job "a" "acme" "root" "org_admin" table).0

expired_never_purged_example :
    fetch "a" (ttl_purge_jobs 7 9000000000000 (count_active_jobs_for_org "acme" 2000000000 table).0)
    ≡ some (record job_a { status = failed; error_message = some "job timed out (never started)" })
unfolding fetch is_never_started new_row
expired_never_purged_example =
    expired_never_purged "acme" "a" 2000000000 table job_a "job timed out (never started)" 7
      9000000000000 refl (inr (refl, refl)) refl

run-AllTimed_example : AllTimed (
    run
      (create ask "acme" "ann" "a" 10
        ∷ report "a" started 20
        ∷ cancel "a" "acme" "ann" "user"
        ∷ report "a" succeeded 30
        ∷ [])
      [])
run-AllTimed_example = run-AllTimed (
    create ask "acme" "ann" "a" 10
    ∷ report "a" started 20
    ∷ cancel "a" "acme" "ann" "user"
    ∷ report "a" succeeded 30
    ∷ [])

cancel_export_job_lem_example :
    ((cancel_export_job "a" "acme" "root" "org_admin" table).1
      ≡ is_seen_active (get_export_job "a" "acme" "root" "org_admin" table))
    × (fetch "b" (cancel_export_job "a" "acme" "root" "org_admin" table).0 ≡ (
        if (cancel_export_job "a" "acme" "root" "org_admin" table).1 && str_eq "b" "a"
        then Option.map set_cancelled (fetch "b" table)
        else fetch "b" table))
cancel_export_job_lem_example =
    cancel_export_job_lem "a" "acme" "root" "org_admin" table "b" table-UniqueIds

list_export_jobs-all_example :
    StrictlyNewestFirst (pages_upto "acme" "user" 1 none table 2)
    × Perm (pages_upto "acme" "user" 1 none table 2) (keep_if (listed "acme" "user" none) table)
unfolding list_export_jobs count_where listed new_row
list_export_jobs-all_example =
    list_export_jobs-all "acme" "user" 1 none table 2 1 ((refl, tt), (tt, tt)) (omega arith)
