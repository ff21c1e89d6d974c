-- ===== src/Worker.antt =====
-- export/worker.py: one run of an export job. The state is in Worker.State.
pub mod State
pub mod Loop
pub mod Accounting
pub mod Invariant
pub mod Keeps
pub mod Limit
pub mod Complete
pub mod Attempt
pub mod Outcome
pub mod Gauge
pub mod Silent
use Prim.Native.String.{◌++◌ as append}
use databridge.Base.{
  ℕ, zero, suc, ◌+◌, ◌-◌, ◌*◌, ◌/◌, Bool, true, false, not, ◌&&◌, ◌||◌, Option, none, some, List,
  [], ◌∷◌, String, str_eq, leb, ltb, ◌==◌, is_some, or_else, then_option, if◌then◌else◌,
}
use databridge.Base.Lists.{find_first}
use databridge.Base.Text.{is_empty, rstrip_slash}
use databridge.Value.{Value, Codec}
use databridge.Sampling.{SamplingConfig, SamplingBuffer, new_buffer}
use databridge.Config.{Settings, DatasinkConfig, SystemSourceConfig, find_datasink, is_local_sink}
use databridge.Jobs.{
  Instant, ExportJob, ExportJobStatus, running, completed, failed, DatasourceType, connection,
  system, JobTable, is_cancelled,
}
use databridge.Jobs.Store.{
  fetch, update_export_job_status, update_export_progress, update_records_total,
  update_external_dataset_id, update_external_asset_dataset_id, is_job_cancelled,
}
use databridge.Sink.{Try, returns, raises, Sink}
use databridge.Worker.State.{
  Adapter, Env, Moment, at_start, after_batch, at_end, Metrics, Notice, Work, Run, ◌>>=◌, ◌>>◌,
  pure, lift, modify, execute, when, read, Query, load_job, write_status, write_total,
  write_external, write_external_asset, check_cancelled, unless_refused,
}
use databridge.Worker.Loop.{Plan, run_batches, sink_call}

abbrev pub truthy_text : Option String → Option String
truthy_text none = none
truthy_text (some s) = if is_empty s then none else some s

-- `_build_download_url`, for a sink that was found
unfoldable pub build_download_url : Settings → String → DatasinkConfig → Bool → String
build_download_url settings job_id config assets =
    if is_local_sink config.type
    then (let base = rstrip_slash settings.server.public_url in
        let download = append "/api/v1/export-jobs/" (append job_id "/download") in
        let path = if assets then append download "?assets=true" else download in
        if is_empty base then path else append base path)
    else config.url

module _ {S : Type 0} (env : Env S) (job_id : String) where
  abbrev pub set_job_status : ExportJobStatus → Option String → Moment → Run S (Unit {0})
  set_job_status status error at =
      execute (env.refuses (write_status status))
        (update_export_job_status job_id status error (env.clock at))

  abbrev pub up : Metrics → Metrics
  up m = record m { active_inc = m.active_inc + 1 }

  abbrev pub down : Metrics → Metrics
  down m = record m { active_dec = m.active_dec + 1 }

  abbrev gauge : (Metrics → Metrics) → Run S (Unit {0})
  gauge f = modify (λ w. record w { metrics = f w.metrics })

  abbrev found_connection : String → Try (Option Adapter) → Try Adapter
  found_connection ref (raises e) = raises e
  found_connection ref (returns none) =
      raises (append "connection " (append (env.repr ref) " not found"))
  found_connection ref (returns (some adapter)) = returns adapter

  abbrev found_system : ExportJob → Option SystemSourceConfig → Try Adapter
  found_system job none =
      raises (append "system source " (append (env.repr job.datasource_ref) " not found in config"))
  found_system job (some cfg) = env.open_system cfg job

  -- The adapter of the job's source.
  unfoldable pub open_source : ExportJob → DatasourceType → Try Adapter
  open_source job connection =
      found_connection job.datasource_ref (env.open_connection job.datasource_ref job)
  open_source job system = found_system job (
      find_first
        (λ s. str_eq s.name job.datasource_ref || str_eq (env.source_id s.name) job.datasource_ref)
        env.settings.datasources)

  abbrev pub save_external :
      Query → (String → JobTable → JobTable) → Option String → Run S (Unit {0})
  save_external query save none = pure tt
  save_external query save (some x) = when (not (is_empty x)) (execute (env.refuses query) (save x))

  abbrev then_try : Try S → (S → Try S) → Try S
  then_try (raises e) k = raises e
  then_try (returns s) k = k s

  abbrev checked : S × Try (Unit {0}) → (S → Try S) → Try S
  checked (s, raises e) k = raises e
  checked (s, returns u) k = k s

  -- A new sink that is bound to the job's owner, answers its ping and has the dataset.
  unfoldable pub prepared_sink : ExportJob → DatasinkConfig → String → Try S
  prepared_sink job config dataset = then_try (env.new_sink config job_id) (λ fresh.
      checked (env.sink.ping (env.sink.set_actor job.org_id job.user_id fresh))
        (λ s. checked (env.sink.create_dataset dataset s) (λ s'. returns s')))

  unfoldable pub set_up_sink : ExportJob → DatasinkConfig → Run S (Unit {0})
  set_up_sink job config = do
    s ← lift (prepared_sink job config job.destination_dataset)
    modify (λ w. record w { main = some s })
    save_external (write_external at_start) (update_external_dataset_id job_id)
        (env.sink.external_id s)

  abbrev asset_target : ExportJob → Option (DatasinkConfig × String)
  asset_target job = then_option (truthy_text job.asset_datasink_name) (λ name.
      then_option (truthy_text job.asset_dataset) (λ dataset.
        then_option (find_datasink env.settings name) (λ config. some (config, dataset))))

  abbrev pub set_up_target : ExportJob → Option (DatasinkConfig × String) → Run S (Unit {0})
  set_up_target job none = pure tt
  set_up_target job (some (config, dataset)) = do
    s ← lift (prepared_sink job config dataset)
    modify (λ w. record w { asset = some s })
    save_external (write_external_asset at_start) (update_external_asset_dataset_id job_id)
        (env.sink.dataset_id s dataset)

  -- "Asset resolution setup"
  unfoldable pub set_up_assets : ExportJob → Run S (Unit {0})
  set_up_assets job = when job.asset_resolution (set_up_target job (asset_target job))

  abbrev buffer_of : Option SamplingConfig → Option SamplingBuffer
  buffer_of none = none
  buffer_of (some config) = some (new_buffer env.divide config)

  -- "Load masking/sampling/webhook config from job row"
  unfoldable pub load_config : ExportJob → Run S (Unit {0})
  load_config job = modify (λ w. record w {
    webhook_url = job.webhook_url;
    webhook_enabled = job.webhook_enabled;
    buffer = buffer_of job.sampling_config;
  })

  abbrev max_items_of : Option SamplingConfig → Option ℕ
  max_items_of none = none
  max_items_of (some config) = config.max_items

  unfoldable pub plan_of : ExportJob → Plan
  plan_of job = record {
    job_id = job_id;
    destination_dataset = job.destination_dataset;
    masking_rules = job.masking_rules;
    field_extraction = job.field_extraction;
    field_extraction_path = job.field_extraction_path;
    asset_resolution = job.asset_resolution;
    asset_url_fields = job.asset_url_fields;
    asset_url_prefix = job.asset_url_prefix;
    asset_dataset = or_else job.asset_dataset "";
    max_items = max_items_of job.sampling_config;
    batch_size = env.settings.export.batch_size;
  }

  -- From "Get adapter" to the end of the batch loop.
  unfoldable pub transfer : ExportJob → DatasinkConfig → Run S (Unit {0})
  transfer job config = do
    adapter ← lift (open_source job job.datasource_type)
    total ← lift adapter.count
    execute (env.refuses write_total) (update_records_total job_id total)
    set_up_sink job config
    set_up_assets job
    load_config job
    run_batches env (plan_of job) adapter total

  abbrev pub finalise_main : Option S → Run S (Unit {0})
  finalise_main none = pure tt
  finalise_main (some s) = do
    modify (λ w. record w { records_skipped = w.records_skipped + env.sink.records_skipped s })
    s' ← sink_call env.sink.finalise s
    modify (λ w. record w { main = some s' })
    save_external (write_external at_end) (update_external_dataset_id job_id)
        (env.sink.external_id s')

  abbrev pub finalise_asset : Option S → Run S (Unit {0})
  finalise_asset none = pure tt
  finalise_asset (some s) = do
    s' ← sink_call env.sink.finalise s
    modify (λ w. record w { asset = some s' })
    save_external (write_external_asset at_end) (update_external_asset_dataset_id job_id)
        (env.sink.external_id s')

  -- After the loop: both sinks are finalised.
  unfoldable pub finish_sinks : Run S (Unit {0})
  finish_sinks = do read (λ w. finalise_main w.main); read (λ w. finalise_asset w.asset)

  abbrev pub send_to :
      Option String → Bool → ExportJob → String → String → String → String → Run S (Unit {0})
  send_to (some url) true job status error download assets = modify (λ w. record w {
    sent =
        (record {
          url = url;
          job_id = job_id;
          status = status;
          org_id = job.org_id;
          destination_dataset = job.destination_dataset;
          records_processed = w.records_processed;
          records_skipped = w.records_skipped;
          error = error;
          download_url = download;
          assets_download_url = assets;
        })
        ∷ w.sent;
  })
  send_to url enabled job status error download assets = pure tt

  -- `if webhook_enabled and webhook_url`
  unfoldable pub send_webhook : ExportJob → String → String → String → String → Run S (Unit {0})
  send_webhook job status error download assets =
      read (λ w.
        send_to (truthy_text w.webhook_url) w.webhook_enabled job status error download assets)

  abbrev pub report_completed : ExportJob → DatasinkConfig → Run S (Unit {0})
  report_completed job config = do
    set_job_status completed none at_end
    gauge (λ m. record m { completed = m.completed + 1 })
    gauge down
    send_webhook job "completed" "" (build_download_url env.settings job_id config false)
        (if job.asset_resolution then build_download_url env.settings job_id config true else "")

  abbrev pub unless_cancelled : Bool → ExportJob → DatasinkConfig → Run S (Unit {0})
  unless_cancelled true job config = gauge down
  unless_cancelled false job config = report_completed job config

  -- The cancellation check at the end, and the completion.
  unfoldable pub conclude : ExportJob → DatasinkConfig → Run S (Unit {0})
  conclude job config = do
    execute none (env.meanwhile at_end)
    execute (env.refuses (check_cancelled at_end)) (λ rows. rows)
    read (λ w. unless_cancelled (is_job_cancelled job_id w.rows) job config)

  -- The `try` block.
  unfoldable pub attempt : ExportJob → DatasinkConfig → Run S (Unit {0})
  attempt job config = do
    set_job_status running none at_start
    gauge up
    transfer job config
    finish_sinks
    conclude job config

  abbrev pub report_failed : ExportJob → String → Run S (Unit {0})
  report_failed job e = do
    set_job_status failed (some e) at_end
    gauge (λ m. record m { failed = m.failed + 1 })
    gauge down
    send_webhook job "failed" e "" ""

  abbrev handled_if : Bool → ExportJob → String → Run S (Unit {0})
  handled_if true job e w = report_failed job e w
  handled_if false job e w = (w, raises e)

  -- `except Exception`: another exception, and what the handler raises, is the run's
  unfoldable pub recover : ExportJob → Work S × Try (Unit {0}) → Work S × Try (Unit {0})
  recover job (w, returns u) = (w, returns u)
  recover job (w, raises e) = handled_if (env.is_exception e) job e w

  abbrev pub run_on : ExportJob → Option DatasinkConfig → Run S (Unit {0})
  run_on job none w =
      set_job_status failed
        (some (append "datasink '" (append job.datasink_name "' not found in config"))) at_start w
  run_on job (some config) w =
      recover job (attempt job config (record w { rows = env.meanwhile at_start w.rows }))

  abbrev run_unless : Bool → ExportJob → Run S (Unit {0})
  run_unless true job w = (w, returns tt)
  run_unless false job w = run_on job (find_datasink env.settings job.datasink_name) w

  abbrev run_found : Option ExportJob → Run S (Unit {0})
  run_found none w = (w, returns tt)
  run_found (some job) w = run_unless (is_cancelled job.status) job w

  -- `run_export_job`; the row is read before others may act at `at_start`
  unfoldable pub run_export_job : Run S (Unit {0})
  run_export_job w = unless_refused (env.refuses load_job) w (run_found (fetch job_id w.rows) w)
