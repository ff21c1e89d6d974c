-- ===== src/Worker/Attempt.antt =====
-- How the `try` block of `run_export_job` and its handler end.
use databridge.Base.{
  Option-cases, inl, inr, ◌⊎◌, ◌+◌, ◌≡◌, refl, Bool, true, false, Option, none, some, List, String,
}
use databridge.Config.{DatasinkConfig}
use databridge.Jobs.{ExportJob, ExportJobStatus, JobTable, running, completed, failed}
use databridge.Jobs.Store.{update_export_job_status, is_job_cancelled}
use databridge.Sink.{Try, returns, raises}
use databridge.Worker.State.{
  Env, write_status, check_cancelled, at_start, at_end, Metrics, Notice, Work, Run, ◌>>=◌, pure,
  modify, execute, read, continue,
}
use databridge.Worker.{
  send_webhook, send_to, truthy_text, conclude, unless_cancelled, report_completed, attempt,
  recover, report_failed, down,
}
use databridge.Worker.Invariant.{Closed, Kept}
use databridge.Worker.Keeps.{Keeps, transfer-Keeps, finish_sinks-Keeps}

module _ {S : Type 0} (env : Env S) (job_id : String) (job : ExportJob)
    (config : DatasinkConfig) where
  send_webhook-sent :
      (status error download assets : String) (w : Work S)
      → (sent : List Notice) × (send_webhook env job_id job status error download assets w
          ≡ (record w { sent = sent }, returns tt))
  unfolding send_webhook read pure modify
  send_webhook-sent status error download assets w =
      by_config (truthy_text w.webhook_url) w.webhook_enabled
    where
      by_config :
          (url : Option String) (enabled : Bool)
          → (sent : List Notice) × (send_to env job_id url enabled job status error download assets
                w
              ≡ (record w { sent = sent }, returns tt))
      by_config (some url) true = (_, refl)
      by_config (some url) false = (w.sent, refl)
      by_config none true = (w.sent, refl)
      by_config none false = (w.sent, refl)

  -- What a report leaves: nothing but what the statement raised, or the row and the counters.
  abbrev pub Reported :
      ExportJobStatus
      → Option String
      → (Metrics → Metrics)
      → Work S
      → Work S × Try (Unit {0})
      → Type 0
  Reported status error count w p =
      ((e : String) × (env.refuses (write_status status) ≡ some e) × (p ≡ (w, raises e)))
      ⊎ ((sent : List Notice) × (p ≡ (
        record w {
          rows = update_export_job_status job_id status error (env.clock at_end) w.rows;
          metrics = count w.metrics;
          sent = sent;
        },
        returns tt,
      )))

  abbrev pub count_failed : Metrics → Metrics
  count_failed m = record m { failed = m.failed + 1; active_dec = m.active_dec + 1 }

  abbrev count_completed : Metrics → Metrics
  count_completed m = record m { completed = m.completed + 1; active_dec = m.active_dec + 1 }

  pub report_failed-Reported :
      (e : String) (w : Work S)
      → Reported failed (some e) count_failed w (report_failed env job_id job e w)
  unfolding ◌>>=◌ execute modify
  report_failed-Reported e w = elim (Option-cases (env.refuses (write_status failed))) [
    | inl none_raised ↦ rw none_raised (inr (send_webhook-sent "failed" e "" "" _))
    | inr (e', raised) ↦ rw raised (inl (e', refl, refl))
  ]

  report_completed-Reported :
      (w : Work S)
      → Reported completed none count_completed w (report_completed env job_id job config w)
  unfolding ◌>>=◌ execute modify
  report_completed-Reported w = elim (Option-cases (env.refuses (write_status completed))) [
    | inl none_raised ↦ rw none_raised (inr (send_webhook-sent "completed" "" _ _ _))
    | inr (e', raised) ↦ rw raised (inl (e', refl, refl))
  ]

  -- A fact about how the run ends, from what it ends with after each of its last statements.
  module _ (I : JobTable → Metrics → Type 0) (closed : Closed env job_id I)
      (J : Work S × Try (Unit {0}) → Type 0)
      (failing : (e : String) (w : Work S)
        → I w.rows w.metrics
        → J (recover env job_id job (w, raises e)))
      (stopped : (w : Work S)
        → I w.rows w.metrics
        → is_job_cancelled job_id w.rows ≡ true
        → J (record w { metrics = down env job_id w.metrics }, returns tt))
      (finished : (w : Work S) (sent : List Notice)
        → I w.rows w.metrics
        → J (
          record w {
            rows = update_export_job_status job_id completed none (env.clock at_end) w.rows;
            metrics = count_completed w.metrics;
            sent = sent;
          },
          returns tt,
        )) where
    completing :
        (w : Work S) (p : Work S × Try (Unit {0}))
        → I w.rows w.metrics
        → Reported completed none count_completed w p
        → J (recover env job_id job p)
    unfolding recover
    completing w p i (inl (e, raised, same)) = rw same (failing e w i)
    completing w p i (inr (sent, same)) = rw same (finished w sent i)

    conclude-after :
        (w : Work S)
        → I w.rows w.metrics
        → J (recover env job_id job (conclude env job_id job config w))
    unfolding conclude ◌>>=◌ execute modify read recover
    conclude-after w i = by_check (env.refuses (check_cancelled at_end))
      where
        u : Work S
        u = record w { rows = env.meanwhile at_end w.rows }

        i' : I u.rows u.metrics
        i' = closed.by_others at_end w.rows w.metrics i

        by_status :
            (b : Bool)
            → is_job_cancelled job_id u.rows ≡ b
            → J (recover env job_id job (unless_cancelled env job_id b job config u))
        by_status true e = stopped u i' e
        by_status false e = completing u _ i' (report_completed-Reported u)

        by_check :
            (o : Option String)
            → J (
                recover env job_id job (
                  continue
                    (execute o (λ rows. rows) u).1
                    (λ x. read (λ v.
                      unless_cancelled env job_id (is_job_cancelled job_id v.rows) job config))
                    (execute o (λ rows. rows) u).0))
        by_check none = by_status (is_job_cancelled job_id u.rows) refl
        by_check (some e) = failing e u i'

    -- Between the statements of the `try` block: it goes on, or the exception is handled.
    next :
        (p : Work S × Try (Unit {0})) (f : Unit {0} → Run S (Unit {0}))
        → Kept I p
        → ((w : Work S) → I w.rows w.metrics → J (recover env job_id job (f tt w)))
        → J (recover env job_id job (continue p.1 f p.0))
    unfolding Kept recover
    next (w, returns u) f i k = k w i
    next (w, raises e) f i k = failing e w i

    pub attempt-after :
        (w : Work S)
        → env.refuses (write_status running) ≡ none
        → I
            (update_export_job_status job_id running none (env.clock at_start) w.rows)
            (record w.metrics { active_inc = w.metrics.active_inc + 1 })
        → J (recover env job_id job (attempt env job_id job config w))
    unfolding attempt ◌>>=◌ execute modify Keeps
    attempt-after w accepted i = rw accepted (
        next _ _ (transfer-Keeps env job_id I closed job config _ i)
          (λ w' i'. next _ _ (finish_sinks-Keeps env job_id I closed w' i') conclude-after))

  pub attempt-refused :
      (w : Work S) (e : String)
      → env.refuses (write_status running) ≡ some e
      → attempt env job_id job config w ≡ (w, raises e)
  unfolding attempt ◌>>=◌ execute
  attempt-refused w e refused = rw refused refl
