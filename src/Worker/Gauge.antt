-- ===== src/Worker/Gauge.antt =====
-- What a run of `run_export_job` does to the gauge of active jobs.
use databridge.Base.{
  ◌+◌, ◌≡◌, refl, arith, false, Option, none, some, String, inl, inr, Bool-cases, Option-cases,
}
use databridge.Config.{DatasinkConfig, find_datasink}
use databridge.Jobs.{ExportJob, failed, running, is_cancelled}
use databridge.Jobs.Store.{fetch}
use databridge.Sink.{Try, returns, raises}
use databridge.Worker.State.{Env, at_start, Metrics, Work, load_job, write_status}
use databridge.Worker.{recover, run_export_job, up}
use databridge.Worker.Invariant.{Closed}
use databridge.Worker.Attempt.{
  Reported, count_failed, report_failed-Reported, attempt-after, attempt-refused,
}

-- What the gauge shows in the second state is what it shows in the first, or one more, or one less.
abbrev Balanced : Metrics → Metrics → Type 0
Balanced m m' = m'.active_inc + m.active_dec ≡ m'.active_dec + m.active_inc

abbrev OneUp : Metrics → Metrics → Type 0
OneUp m m' = m'.active_inc + m.active_dec ≡ (m'.active_dec + m.active_inc) + 1

abbrev OneDown : Metrics → Metrics → Type 0
OneDown m m' = (m'.active_inc + m.active_dec) + 1 ≡ m'.active_dec + m.active_inc

-- The gauge after a run, by what the statement that marks the job as running raised and by how the run
-- ends.
abbrev pub Gauge : {S : Type 0} → Option String → Metrics → Work S × Try (Unit {0}) → Type 0
Gauge none m (w, returns u) = Balanced m w.metrics
Gauge none m (w, raises e) = OneUp m w.metrics
Gauge (some e0) m (w, returns u) = OneDown m w.metrics
Gauge (some e0) m (w, raises e) = Balanced m w.metrics

module _ {S : Type 0} (env : Env S) (job_id : String) where
  failing :
      (m : Metrics) (job : ExportJob) (config : DatasinkConfig) (e : String) (w : Work S)
      → w.metrics ≡ up env job_id m
      → Gauge none m (recover env job_id job (w, raises e))
  unfolding recover
  failing m job config e w q = elim (Bool-cases (env.is_exception e)) [
    | inr x ↦ rw (x, q) (omega arith)
    | inl x ↦ rw x (by_report _ (report_failed-Reported env job_id job config e w))
  ]
    where
      by_report :
          (r : Work S × Try (Unit {0}))
          → Reported env job_id job config failed (some e) (count_failed env job_id job config) w r
          → Gauge none m r
      by_report r (inl (e', refused, same)) = rw (same, q) (omega arith)
      by_report r (inr (sent, same)) = rw (same, q) (omega arith)

  refused_at_start :
      (job : ExportJob) (config : DatasinkConfig) (e : String) (w : Work S)
      → Gauge (some e) w.metrics (recover env job_id job (w, raises e))
  unfolding recover
  refused_at_start job config e w = elim (Bool-cases (env.is_exception e)) [
    | inr x ↦ rw x (omega arith)
    | inl x ↦ rw x (by_report _ (report_failed-Reported env job_id job config e w))
  ]
    where
      by_report :
          (r : Work S × Try (Unit {0}))
          → Reported env job_id job config failed (some e) (count_failed env job_id job config) w r
          → Gauge (some e) w.metrics r
      by_report r (inl (e', refused, same)) = rw same (omega arith)
      by_report r (inr (sent, same)) = rw same (omega arith)

  -- A run on a job that is loaded, was not cancelled and has a configured sink: where the statement
  -- that marks it as running succeeds, the run takes from the gauge of active jobs what it adds, if it
  -- returns, and leaves the gauge one too high, if it raises; where that statement raises, the run
  -- leaves the gauge one too low, if it returns, since its handler takes away what was never added,
  -- and as it was, if it raises.
  pub run_export_job-Gauge :
      (w : Work S) (job : ExportJob) (config : DatasinkConfig)
      → env.refuses load_job ≡ none
      → fetch job_id w.rows ≡ some job
      → is_cancelled job.status ≡ false
      → find_datasink env.settings job.datasink_name ≡ some config
      → Gauge (env.refuses (write_status running)) w.metrics (run_export_job env job_id w)
  unfolding run_export_job
  run_export_job-Gauge w job config loaded found live sink =
      rw (loaded, found, live, sink)
        (elim (Option-cases (env.refuses (write_status running))) [
          | inr (e, refused) ↦
              rw (refused, attempt-refused env job_id job config started e refused)
                (refused_at_start job config e started)
          | inl accepted ↦ rw accepted (
              attempt-after env job_id job config (λ rows k. k ≡ up env job_id m) unchanged
                (Gauge none m) (failing m job config) (λ u i c. rw i (omega arith))
                (λ u sent i. rw i (omega arith)) started accepted refl)
        ])
    where
      m : Metrics
      m = w.metrics

      started : Work S
      started = record w { rows = env.meanwhile at_start w.rows }

      unchanged : Closed env job_id (λ rows k. k ≡ up env job_id m)
      unchanged = record {
        by_progress = λ p s e now rows k i. i;
        by_total = λ n rows k i. i;
        by_external = λ x rows k i. i;
        by_external_asset = λ x rows k i. i;
        by_others = λ at rows k i. i;
      }
