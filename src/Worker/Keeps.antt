-- ===== src/Worker/Keeps.antt =====
-- Statements of a run that keep a fact about the table and the metrics.
use databridge.Base.{ℕ, ◌≡◌, refl, Bool, true, false, Option, none, some, String}
use databridge.Config.{DatasinkConfig}
use databridge.Jobs.{ExportJob, JobTable}
use databridge.Sink.{Try, returns, raises}
use databridge.Worker.State.{
  Adapter, Env, Metrics, Work, Query, Run, ◌>>=◌, ◌>>◌, pure, lift, modify, execute, read, continue,
  when,
}
use databridge.Worker.Loop.{sink_call, run_batches}
use databridge.Worker.{
  save_external, set_up_sink, set_up_assets, set_up_target, load_config, plan_of, transfer,
  finalise_main, finalise_asset, finish_sinks,
}
use databridge.Worker.Invariant.{Closed, Kept, run_batches-After}

module _ {S : Type 0} (env : Env S) (job_id : String) (I : JobTable → Metrics → Type 0)
    (closed : Closed env job_id I) where
  unfoldable pub Keeps : {A : Type 0} → Run S A → Type 0
  Keeps m = (w : Work S) → I w.rows w.metrics → Kept I (m w)

  bind-Keeps :
      {A B : Type 0} (m : Run S A) (f : A → Run S B)
      → Keeps m
      → ((a : A) → Keeps (f a))
      → Keeps (m >>= f)
  unfolding Keeps Kept ◌>>=◌
  bind-Keeps m f h k w i = by_result (m w) (h w i)
    where
      by_result : (p : Work S × Try _) → Kept I p → Kept I (continue p.1 f p.0)
      by_result (w', returns a) i' = k a w' i'
      by_result (w', raises e) i' = i'

  pure-Keeps : {A : Type 0} (a : A) → Keeps (pure a)
  unfolding Keeps Kept pure
  pure-Keeps a w i = i

  lift-Keeps : {A : Type 0} (r : Try A) → Keeps (lift r)
  unfolding Keeps Kept lift
  lift-Keeps r w i = i

  modify-Keeps :
      (f : Work S → Work S)
      → ((w : Work S) → ((f w).rows ≡ w.rows) × ((f w).metrics ≡ w.metrics))
      → Keeps (modify f)
  unfolding Keeps Kept modify
  modify-Keeps f h w i = rw ((h w).0, (h w).1) i

  execute-Keeps :
      (o : Option String) (f : JobTable → JobTable)
      → ((rows : JobTable) (m : Metrics) → I rows m → I (f rows) m)
      → Keeps (execute o f)
  unfolding Keeps Kept execute
  execute-Keeps none f h w i = h w.rows w.metrics i
  execute-Keeps (some e) f h w i = i

  read-Keeps : {A : Type 0} (f : Work S → Run S A) → ((w : Work S) → Keeps (f w)) → Keeps (read f)
  unfolding Keeps read
  read-Keeps f h w i = h w w i

  sink_call-Keeps : (f : S → S × Try (Unit {0})) (s : S) → Keeps (sink_call f s)
  unfolding Keeps Kept sink_call
  sink_call-Keeps f s w i = i

  when-Keeps : (b : Bool) (m : Run S (Unit {0})) → Keeps m → Keeps (when b m)
  when-Keeps true m h = h
  when-Keeps false m h = pure-Keeps tt

  save_external-Keeps :
      (query : Query) (save : String → JobTable → JobTable) (o : Option String)
      → ((x : String) (rows : JobTable) (m : Metrics) → I rows m → I (save x rows) m)
      → Keeps (save_external env job_id query save o)
  save_external-Keeps query save none h = pure-Keeps tt
  save_external-Keeps query save (some x) h = when-Keeps _ _ (execute-Keeps _ _ (h x))

  set_up_sink-Keeps :
      (job : ExportJob) (config : DatasinkConfig) → Keeps (set_up_sink env job_id job config)
  unfolding set_up_sink
  set_up_sink-Keeps job config = bind-Keeps _ _ (lift-Keeps _) (λ s.
      bind-Keeps _ _ (modify-Keeps _ (λ w. (refl, refl)))
        (λ u. save_external-Keeps _ _ _ closed.by_external))

  set_up_target-Keeps :
      (job : ExportJob) (o : Option (DatasinkConfig × String))
      → Keeps (set_up_target env job_id job o)
  set_up_target-Keeps job none = pure-Keeps tt
  set_up_target-Keeps job (some (config, dataset)) = bind-Keeps _ _ (lift-Keeps _) (λ s.
      bind-Keeps _ _ (modify-Keeps _ (λ w. (refl, refl)))
        (λ u. save_external-Keeps _ _ _ closed.by_external_asset))

  set_up_assets-Keeps : (job : ExportJob) → Keeps (set_up_assets env job_id job)
  unfolding set_up_assets
  set_up_assets-Keeps job = when-Keeps _ _ (set_up_target-Keeps job _)

  run_batches-Keeps :
      (job : ExportJob) (adapter : Adapter) (total : ℕ)
      → Keeps (run_batches env (plan_of env job_id job) adapter total)
  unfolding Keeps plan_of
  run_batches-Keeps job adapter total w i =
      run_batches-After env (plan_of env job_id job) I closed adapter total w i

  pub transfer-Keeps :
      (job : ExportJob) (config : DatasinkConfig) → Keeps (transfer env job_id job config)
  unfolding transfer load_config
  transfer-Keeps job config = bind-Keeps _ _ (lift-Keeps _) (λ adapter.
      bind-Keeps _ _ (lift-Keeps _) (λ total.
        bind-Keeps _ _ (execute-Keeps _ _ (closed.by_total total)) (λ u.
          bind-Keeps _ _ (set_up_sink-Keeps job config) (λ u.
            bind-Keeps _ _ (set_up_assets-Keeps job) (λ u.
              bind-Keeps _ _ (modify-Keeps _ (λ w. (refl, refl)))
                (λ u. run_batches-Keeps job adapter total))))))

  finalise_main-Keeps : (o : Option S) → Keeps (finalise_main env job_id o)
  finalise_main-Keeps none = pure-Keeps tt
  finalise_main-Keeps (some s) = bind-Keeps _ _ (modify-Keeps _ (λ w. (refl, refl))) (λ u.
      bind-Keeps _ _ (sink_call-Keeps _ _) (λ s'.
        bind-Keeps _ _ (modify-Keeps _ (λ w. (refl, refl)))
          (λ u. save_external-Keeps _ _ _ closed.by_external)))

  finalise_asset-Keeps : (o : Option S) → Keeps (finalise_asset env job_id o)
  finalise_asset-Keeps none = pure-Keeps tt
  finalise_asset-Keeps (some s) = bind-Keeps _ _ (sink_call-Keeps _ _) (λ s'.
      bind-Keeps _ _ (modify-Keeps _ (λ w. (refl, refl)))
        (λ u. save_external-Keeps _ _ _ closed.by_external_asset))

  pub finish_sinks-Keeps : Keeps (finish_sinks env job_id)
  unfolding finish_sinks
  finish_sinks-Keeps =
      bind-Keeps _ _ (read-Keeps _ (λ w. finalise_main-Keeps w.main))
        (λ u. read-Keeps _ (λ w. finalise_asset-Keeps w.asset))

  -- The work between the two status updates.
  work-Keeps :
      (job : ExportJob) (config : DatasinkConfig)
      → Keeps (transfer env job_id job config >> finish_sinks env job_id)
  work-Keeps job config = bind-Keeps _ _ (transfer-Keeps job config) (λ u. finish_sinks-Keeps)
