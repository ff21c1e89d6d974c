-- ===== src/Tests/Requests.antt =====
-- Requests to the routes, on the table of `Tests.Table`.
use databridge.Base.{str_eq, List, ◌+◌, ◌≤◌, ◌≡◌, refl, some, true, false, none, [], ◌∷◌, arith}
use databridge.Base.Lists.{any_of}
use databridge.Config.{DatasinkConfig, Settings, is_local_sink}
use databridge.Base.Text.{rstrip_slash, is_blank}
use databridge.Jobs.{ExportJob, failed, pending}
use databridge.Jobs.Store.{
  fetch, new_row, get_export_job, may_see, count_active_jobs_for_org, count_where, expire_jobs,
  update_where, is_unresponsive, is_never_started, insert_export_job,
}
use databridge.Jobs.Quota.{active}
use databridge.Routes.{AuthContext, App, ArqPool}
use databridge.Routes.ExportJobs.{
  ExportJobResponse, create_export_job, retry_export_job, submit, within_quota,
  field_extraction_valid, cancel_export_job_endpoint, with_download_urls, retry_data,
}
use databridge.Routes.ExportJobs.Quota.{
  Request, create, retry, cancel, handle_all, handle_all-within_limit, quota_race,
}
use databridge.Routes.ExportJobs.Retry.{CopiesOf, retry_export_job-copies}
use databridge.Routes.ExportJobs.Answers.{
  cancel_answer, cancel_export_job_endpoint-answer, create_export_job-effect, answers_ok,
}
use databridge.Tests.Table.{ask, job_a, table, table-UniqueIds}

abbrev pub sink : DatasinkConfig
sink = record {
  name = "out";
  type = "local-zip";
  url = "";
  path = "/data";
  filename_template = "";
  bucket = "";
  region = "us-east-1";
  access_key_id = "";
  secret_access_key = "";
  endpoint = "";
  key_prefix = "";
  token_url = "";
  client_id = "";
  client_secret = "";
  audience = "";
  org_header = "Organization-Id";
  dataset_access = "organization";
}

abbrev pub settings : Settings
settings = record {
  server = record {
    host = "0.0.0.0";
    port = 5010;
    workers = 1;
    root_path = "";
    debug = false;
    silence_probes = true;
    hide_auth_inputs = false;
    public_url = "https://bridge.example/";
  };
  database_url = "";
  encryption_key = "";
  datasources = [];
  datasinks = sink ∷ [];
  export = record {
    stale_job_timeout_minutes = 15;
    max_concurrent_jobs_per_org = 3;
    job_ttl_days = 7;
    poll_interval_seconds = 3;
    keepalive_interval_minutes = 2;
    batch_size = 100;
    redis_url = "";
    worker_metrics_port = 9101;
    webhook_allowed_url_prefixes = [];
  };
  db_pool_max_size = 10;
  demo = false;
}

abbrev pub ann : AuthContext
ann = record {
  public_key = "acme/ann";
  is_org_admin = false;
  org_id = "acme";
  user_id = "ann";
  role = "user";
}

abbrev arq : ArqPool
arq = record { present = true; pings = true; enqueues = true }

abbrev arq_full : ArqPool
arq_full = record { present = true; pings = true; enqueues = false }

abbrev app : App
app = record { jobs = table; queue = [] }

abbrev job_f : ExportJob
job_f = record job_a { id = "f"; status = failed; masking_rules = [] }

abbrev failed_app : App
failed_app = record { jobs = job_f ∷ []; queue = [] }

quota_race_example :
    active "acme"
      (submit settings ask ann arq "d" 41
        (submit settings ask ann arq "c" 40 (record app { jobs = table })).0).0.jobs
    ≡ 3 + 1
unfolding count_active_jobs_for_org expire_jobs update_where is_unresponsive is_never_started
    count_where new_row
quota_race_example =
    quota_race settings ann arq ask ask "c" "d" 40 41 app table table 2 refl refl refl refl refl

abbrev answer : ExportJobResponse
answer = record {
  job = new_row (retry_data job_f) "acme" "ann" "c" 40;
  download_url = "https://bridge.example/api/v1/export-jobs/c/download";
  assets_download_url = none;
}

retry_export_job-copies_example :
    (job_f.status ≡ failed)
    × (answer.status ≡ pending)
    × (answer.org_id ≡ "acme")
    × (answer.user_id ≡ "ann")
    × CopiesOf job_f answer.job
    × (answer.field_extraction ≡ false)
    × (answer.field_extraction_path ≡ "")
unfolding retry_export_job get_export_job may_see fetch within_quota submit insert_export_job
    count_active_jobs_for_org expire_jobs update_where is_unresponsive is_never_started count_where
    new_row retry_data with_download_urls is_local_sink rstrip_slash
retry_export_job-copies_example =
    retry_export_job-copies settings "f" ann arq "c" 40 failed_app job_f answer refl refl

cancel_export_job_endpoint-answer_example :
    (cancel_export_job_endpoint "b" ann app).1
    ≡ cancel_answer (get_export_job "b" "acme" "ann" "user" table)
cancel_export_job_endpoint-answer_example =
    cancel_export_job_endpoint-answer "b" ann app table-UniqueIds

create_export_job-effect_example :
    let (app', response) = create_export_job settings ask ann arq_full "c" 40 app in
    (fetch "c" app'.jobs ≡ some (new_row ask "acme" "ann" "c" 40))
    × (any_of (str_eq "c") app'.queue ≡ false)
    × (answers_ok response ≡ false)
    × (app'.queue ≡ [])
unfolding field_extraction_valid is_blank count_active_jobs_for_org expire_jobs update_where
    is_unresponsive is_never_started count_where new_row fetch
create_export_job-effect_example =
    create_export_job-effect settings ask ann arq_full "c" 40 app refl refl

abbrev requests : List Request
requests =
    (record { action = create ask; auth = ann; arq = arq; job_id = "c"; now = 40 })
    ∷ (record { action = retry "f"; auth = ann; arq = arq; job_id = "d"; now = 50 })
    ∷ (record { action = cancel "c"; auth = ann; arq = arq; job_id = ""; now = 60 })
    ∷ []

handle_all-within_limit_example : active "acme" (handle_all settings requests failed_app).jobs ≤ 3
unfolding count_where new_row
handle_all-within_limit_example =
    handle_all-within_limit settings requests failed_app "acme" (omega arith)
