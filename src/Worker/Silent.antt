-- ===== src/Worker/Silent.antt =====
-- A failure before the configuration of the webhook is loaded.
use databridge.Base.{◌≡◌, refl, true, false, Option, none, some, String}
use databridge.Config.{DatasinkConfig, find_datasink}
use databridge.Jobs.{ExportJob, failed, running, is_cancelled}
use databridge.Jobs.Store.{fetch, update_export_job_status}
use databridge.Sink.{raises}
use databridge.Worker.State.{
  Env, Query, load_job, write_status, at_start, at_end, Work, ◌>>=◌, pure, lift, modify, execute,
  read,
}
use databridge.Worker.{
  open_source, transfer, send_webhook, send_to, truthy_text, attempt, recover, run_export_job,
}

unsent :
    {S : Type 0} (env : Env S) (job_id : String) (job : ExportJob) (e : String) (u : Option String)
    (w : Work S)
    → (send_to env job_id u false job "failed" e "" "" w).0 ≡ w
unfolding pure
unsent env job_id job e none w = refl
unsent env job_id job e (some url) w = refl

-- Where no statement raises, the job is found and not cancelled and its sink is configured, but its source cannot be
-- opened, a run that starts with no webhook loaded fails the job with the exception's text and sends
-- no webhook, whatever webhook the job has.
pub open_source-failure_sends_nothing :
    {S : Type 0} (env : Env S) (job_id : String) (w : Work S) (job : ExportJob)
    (config : DatasinkConfig) (e : String)
    → fetch job_id w.rows ≡ some job
    → is_cancelled job.status ≡ false
    → find_datasink env.settings job.datasink_name ≡ some config
    → open_source env job_id job job.datasource_type ≡ raises e
    → w.webhook_enabled ≡ false
    → ((query : Query) → env.refuses query ≡ none)
    → env.is_exception e ≡ true
    → ((run_export_job env job_id w).0.sent ≡ w.sent)
      × ((run_export_job env job_id w).0.rows
          ≡ update_export_job_status job_id failed (some e) (env.clock at_end) (
              update_export_job_status job_id running none
                (env.clock at_start)
                (env.meanwhile at_start w.rows)))
unfolding run_export_job attempt transfer recover send_webhook ◌>>=◌ execute modify read lift
open_source-failure_sends_nothing env job_id w job config e found live sink broken off accepted
      exception =
    rw
      (
        accepted load_job,
        found,
        live,
        sink,
        accepted (write_status running),
        broken,
        exception,
        accepted (write_status failed),
        off,
        unsent env job_id job e (truthy_text w.webhook_url) _,
      )
      (refl, refl)
