-- ===== src/Tests/Runs.antt =====
-- The worker on three records, with the local JSONL sink.
use Prim.Native.String.{◌++◌ as append}
use databridge.Base.{◌≤◌, ◌≡◌, refl, true, false, none, some, List, [], ◌∷◌, String, arith}
use databridge.Base.Lists.{take, drop}
use databridge.Value.{Value, number, dict, done, entry, get}
use databridge.Masking.{apply_masking}
use databridge.Jobs.Store.{fetch, new_row, is_job_cancelled}
use databridge.Sink.{returns, raises}
use databridge.Sink.LocalJsonl.{LocalJsonl, create_dataset, is_open, suffixed}
use databridge.Sink.LocalJsonl.Records.{local_jsonl_sink, local_jsonl_recording}
use databridge.Worker.State.{Adapter, Env, Work}
use databridge.Worker.Loop.{Plan, run_batches}
use databridge.Worker.{run_export_job}
use databridge.Worker.Accounting.{Ended, run_batches-Ended}
use databridge.Worker.Limit.{run_batches-within_limit}
use databridge.Worker.Complete.{run_batches_complete}
use databridge.Worker.Gauge.{Gauge, run_export_job-Gauge}
use databridge.Worker.Outcome.{run_export_job-Settles, Settles}
use databridge.Tests.Records.{codec}
use databridge.Tests.Table.{job_a, table}
use databridge.Tests.Requests.{settings, sink}

-- Enough of `json.dumps` for these records.
abbrev dumps : Value → String
dumps (dict (entry k (number n) fs)) = append "{\"" (append k (append "\": " (append n "}")))
dumps v = "null"

abbrev new : String → LocalJsonl
new job_id = record { job_id = job_id; handles = []; files = λ name. []; assets = [] }

abbrev env : Env LocalJsonl
env = record {
  settings = settings;
  codec = codec;
  repr = λ s. s;
  http = record { get_url = λ url. raises "offline" };
  divide = λ a b. a;
  draw = λ n. record { numerator = 1; denominator = 2 };
  clock = λ at. 50;
  meanwhile = λ at rows. rows;
  refuses = λ query. none;
  is_exception = λ e. true;
  source_id = λ name. name;
  open_connection = λ id job. returns none;
  open_system = λ cfg job. raises "no adapter";
  new_sink = λ config id. returns (new id);
  sink = local_jsonl_sink dumps;
}

abbrev one_record : String → Value
one_record n = dict (entry "id" (number n) done)

abbrev records : List Value
records = one_record "1" ∷ one_record "2" ∷ one_record "3" ∷ []

abbrev adapter : Adapter
adapter = record {
  count = returns 3;
  fetch_page = λ limit offset. returns (take limit (drop offset records));
}

abbrev plan : Plan
plan = record {
  job_id = "a";
  destination_dataset = "traces";
  masking_rules = [];
  field_extraction = false;
  field_extraction_path = "";
  asset_resolution = false;
  asset_url_fields = [];
  asset_url_prefix = "";
  asset_dataset = "";
  max_items = none;
  batch_size = 2;
}

abbrev fresh : Work LocalJsonl
fresh = record {
  rows = table;
  main = none;
  asset = none;
  buffer = none;
  records_processed = 0;
  records_skipped = 0;
  asset_errors = 0;
  webhook_url = none;
  webhook_enabled = false;
  metrics = record { active_inc = 0; active_dec = 0; completed = 0; failed = 0 };
  sent = [];
}

abbrev ready : Work LocalJsonl
ready = record fresh { main = some (create_dataset "traces" (new "a")) }

run_batches-Ended_example : Ended env plan 3 ready (run_batches env plan adapter 3 ready)
run_batches-Ended_example = run_batches-Ended env plan adapter records (λ offset. refl) ready

run_batches-within_limit_example :
    (run_batches env (record plan { max_items = some 2 }) adapter 3 ready).0.records_processed ≤ 2
run_batches-within_limit_example =
    run_batches-within_limit env (record plan { max_items = some 2 }) 1 refl adapter 3 ready
      (omega arith)

-- The file of the dataset after the three records.
run_batches_complete_example :
    ((run_batches env plan adapter 3 ready).1 ≡ returns tt)
    × (((run_batches env plan adapter 3 ready).0.buffer ≡ none)
        × (is_job_cancelled "a" (run_batches env plan adapter 3 ready).0.rows ≡ false)
        × (s : LocalJsonl) × ((run_batches env plan adapter 3 ready).0.main ≡ some s)
        × (is_open s "traces" ≡ true)
        × (s.files (suffixed s.job_id "traces")
            ≡ "{\"id\": 1}" ∷ "{\"id\": 2}" ∷ "{\"id\": 3}" ∷ []))
unfolding is_job_cancelled fetch new_row create_dataset apply_masking get
run_batches_complete_example =
    run_batches_complete env plan (local_jsonl_recording dumps "traces") refl refl adapter records
      (λ offset. refl) (λ offset rows h. h) (λ query. refl) ready [] (omega arith)
      (refl, refl, create_dataset "traces" (new "a"), refl, refl, refl) (refl, (refl, (refl, tt)))

run_export_job-Gauge_example : Gauge none fresh.metrics (run_export_job env "a" fresh)
unfolding fetch new_row
run_export_job-Gauge_example = run_export_job-Gauge env "a" fresh job_a sink refl refl refl refl

run_export_job-Settles_example : Settles env "a" (run_export_job env "a" fresh)
unfolding fetch new_row
run_export_job-Settles_example =
    run_export_job-Settles env "a" fresh job_a refl refl (λ at rows p. p)
