-- ===== src/Worker/Outcome.antt =====
-- How a run of `run_export_job` ends.
use mathlib.Core.Option
use databridge.Base.{
  inl, inr, ◌⊎◌, Bool-cases, Option-cases, ◌≡◌, refl, ap, ◌∙◌, arith, true, false, Option, none,
  some, String, is_some, str_eq_self,
}
use databridge.Config.{DatasinkConfig, find_datasink}
use databridge.Jobs.{
  Instant, ExportJob, JobTable, ExportJobStatus, running, completed, failed, is_cancelled,
  is_active,
}
use databridge.Jobs.Store.{
  fetch, update_export_job_status, is_job_cancelled, cancelled_status, set_status, has_id,
  update_where, update_export_progress, update_records_total, update_external_dataset_id,
  update_external_asset_dataset_id,
}
use databridge.Jobs.Table.{fetch-update_where}
use databridge.Jobs.Access.{id-fetch}
use databridge.Sink.{Try, returns, raises}
use databridge.Worker.State.{Env, Moment, at_start, Work, load_job, write_status, execute}
use databridge.Worker.{recover, run_on, run_export_job}
use databridge.Worker.Invariant.{Closed}
use databridge.Worker.Attempt.{
  Reported, count_failed, report_failed-Reported, attempt-after, attempt-refused,
}

module _ {S : Type 0} (env : Env S) (job_id : String) where
  abbrev Present : JobTable → Type 0
  Present rows = is_some (fetch job_id rows) ≡ true

  -- The job is in the table, and is neither pending nor running.
  abbrev Settled : JobTable → Type 0
  Settled rows = (row : ExportJob) × (fetch job_id rows ≡ some row) × (is_active row.status ≡ false)

  is_some-map :
      (f : ExportJob → ExportJob) (o : Option ExportJob) → is_some (Option.map f o) ≡ is_some o
  unfolding Option.map
  is_some-map f none = refl
  is_some-map f (some x) = refl

  update-Present :
      (f : ExportJob → ExportJob) (rows : JobTable)
      → ((row : ExportJob) → (f row).id ≡ row.id)
      → Present rows
      → Present (update_where (has_id job_id) f rows)
  update-Present f rows h p =
      ap is_some (fetch-update_where job_id (has_id job_id) f rows h)
      ∙ is_some-map _ (fetch job_id rows)
      ∙ p

  closed_Present :
      ((at : Moment) (rows : JobTable) → Present rows → Present (env.meanwhile at rows))
      → Closed env job_id (λ rows m. Present rows)
  unfolding update_export_progress update_records_total update_external_dataset_id
      update_external_asset_dataset_id
  closed_Present others = record {
    by_progress = λ p s e now rows k i. update-Present _ rows (λ row. refl) i;
    by_total = λ n rows k i. update-Present _ rows (λ row. refl) i;
    by_external = λ x rows k i. update-Present _ rows (λ row. refl) i;
    by_external_asset = λ x rows k i. update-Present _ rows (λ row. refl) i;
    by_others = λ at rows k i. others at rows i;
  }

  cancelled-Settled : (rows : JobTable) → is_job_cancelled job_id rows ≡ true → Settled rows
  unfolding is_job_cancelled
  cancelled-Settled rows e = by_row (fetch job_id rows) refl e
    where
      by_row :
          (o : Option ExportJob) → fetch job_id rows ≡ o → cancelled_status o ≡ true → Settled rows
      by_row none q c = cc
      by_row (some row) q c = (row, q, ground arith)

  status-Settled :
      (status : ExportJobStatus) (e : Option String) (now : Instant) (rows : JobTable)
      → ((row : ExportJob) → (set_status status e now row).id ≡ row.id)
      → ((row : ExportJob) → is_active (set_status status e now row).status ≡ false)
      → Present rows
      → Settled (update_export_job_status job_id status e now rows)
  unfolding update_export_job_status Option.map
  status-Settled status e now rows same_id inactive p = by_row (fetch job_id rows) refl p
    where
      here : (row : ExportJob) → fetch job_id rows ≡ some row → has_id job_id row ≡ true
      here row q = rw (id-fetch job_id rows row q) (str_eq_self job_id)

      by_row :
          (o : Option ExportJob)
          → fetch job_id rows ≡ o
          → is_some o ≡ true
          → Settled (update_where (has_id job_id) (set_status status e now) rows)
      by_row none q c = cc
      by_row (some row) q c = (
        set_status status e now row,
        fetch-update_where job_id (has_id job_id) (set_status status e now) rows same_id
            ∙ (rw (q, here row q) refl),
        inactive row,
      )

  running-Present :
      (rows : JobTable)
      → Present rows
      → Present (update_export_job_status job_id running none (env.clock at_start) rows)
  unfolding update_export_job_status
  running-Present rows p = update-Present _ rows (λ row. refl) p

  -- What ends a run without a report: what is raised is no Exception, as a CancelledError is not, or
  -- it is raised by the statement that loads the job or by the handler's.
  abbrev Interrupts : String → Type 0
  Interrupts e =
      (env.is_exception e ≡ false)
      ⊎ ((env.refuses load_job ≡ some e) ⊎ (env.refuses (write_status failed) ≡ some e))

  -- The run returns and has settled the job, or it raises what interrupts it.
  abbrev pub Settles : Work S × Try (Unit {0}) → Type 0
  Settles (w, returns u) = Settled w.rows
  Settles (w, raises e) = Interrupts e

  failing :
      (job : ExportJob) (config : DatasinkConfig) (e : String) (w : Work S)
      → Present w.rows
      → Settles (recover env job_id job (w, raises e))
  unfolding recover
  failing job config e w p = elim (Bool-cases (env.is_exception e)) [
    | inr x ↦ rw x (inl x)
    | inl x ↦ rw x (by_report _ (report_failed-Reported env job_id job config e w))
  ]
    where
      by_report :
          (r : Work S × Try (Unit {0}))
          → Reported env job_id job config failed (some e) (count_failed env job_id job config) w r
          → Settles r
      by_report r (inl (e', refused, same)) = rw same (inr (inr refused))
      by_report r (inr (sent, same)) =
          rw same (status-Settled failed (some e) _ w.rows (λ row. refl) (λ row. refl) p)

  -- A run of the worker on a job that it finds in the table and that was not cancelled, if the other
  -- processes do not remove the job's row, either returns and leaves the job completed, failed or
  -- cancelled, never pending or running, whatever Exception the source, a sink, the sampling or a
  -- statement raised; or it raises itself, and then something that is no Exception, such as the
  -- CancelledError of a time-out or a shutdown, or what the database raised when the job was loaded
  -- or when its failure was to be written.
  pub run_export_job-Settles :
      (w : Work S) (job : ExportJob)
      → fetch job_id w.rows ≡ some job
      → is_cancelled job.status ≡ false
      → ((at : Moment) (rows : JobTable) → Present rows → Present (env.meanwhile at rows))
      → Settles (run_export_job env job_id w)
  unfolding run_export_job execute
  run_export_job-Settles w job found live others = elim (Option-cases (env.refuses load_job)) [
    | inr (e, refused) ↦ rw refused (inr (inl refused))
    | inl accepted ↦
        rw (accepted, found, live) (by_config (find_datasink env.settings job.datasink_name))
  ]
    where
      present : Present w.rows
      present = ap is_some found

      started : Work S
      started = record w { rows = env.meanwhile at_start w.rows }

      by_config : (o : Option DatasinkConfig) → Settles (run_on env job_id job o w)
      by_config none = elim (Option-cases (env.refuses (write_status failed))) [
        | inl accepted ↦
            rw accepted (status-Settled failed _ _ w.rows (λ row. refl) (λ row. refl) present)
        | inr (e, refused) ↦ rw refused (inr (inr refused))
      ]
      by_config (some config) = elim (Option-cases (env.refuses (write_status running))) [
        | inr (e, refused) ↦
            rw (attempt-refused env job_id job config started e refused)
              (failing job config e started (others at_start w.rows present))
        | inl accepted ↦
            attempt-after env job_id job config (λ rows m. Present rows) (closed_Present others)
              Settles (failing job config) (λ u p c. cancelled-Settled u.rows c)
              (λ u sent p. status-Settled completed none _ u.rows (λ row. refl) (λ row. refl) p)
              started accepted (running-Present _ (others at_start w.rows present))
      ]
