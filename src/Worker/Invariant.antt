-- ===== src/Worker/Invariant.antt =====
-- Facts about the table and the metrics that no statement of a run before its last ones changes.
use databridge.Base.{
  ℕ, Bool, true, false, Option, none, some, List, [], ◌∷◌, String, Bool-cases, inl, inr, ◌==◌,
}
use databridge.Value.{Value, Entries}
use databridge.Sampling.{SamplingBuffer}
use databridge.Jobs.{Instant, JobTable}
use databridge.Jobs.Store.{
  update_export_progress, update_records_total, update_external_dataset_id,
  update_external_asset_dataset_id,
}
use databridge.Sink.{Try, returns, raises}
use databridge.Worker.State.{
  Adapter, Env, Moment, after_batch, Metrics, Work, write_progress, check_cancelled, unless_refused,
}
use databridge.Worker.Loop.{
  Plan, prepared, process_record, process_records, run_offsets, run_batches, Stage, then_stage,
  Prepared, then_resolve, saved, sampled, fed, extracted, kept_or_skipped, masked, assets_resolved,
  resolve_entries, as_entries, with_assets, resolves, post, post_to, posted, unless_stopped,
  end_batch, process_page,
}

-- What such a fact has to survive.
pub record Closed {S : Type 0} (env : Env S) (job_id : String) (I : JobTable → Metrics → Type 0)
    : Type 0 where
  pub by_progress :
      (p s e : ℕ) (now : Instant) (rows : JobTable) (m : Metrics)
      → I rows m
      → I (update_export_progress job_id p s e now rows) m
  pub by_total :
      (n : ℕ) (rows : JobTable) (m : Metrics) → I rows m → I (update_records_total job_id n rows) m
  pub by_external :
      (x : String) (rows : JobTable) (m : Metrics)
      → I rows m
      → I (update_external_dataset_id job_id x rows) m
  pub by_external_asset :
      (x : String) (rows : JobTable) (m : Metrics)
      → I rows m
      → I (update_external_asset_dataset_id job_id x rows) m
  pub by_others :
      (at : Moment) (rows : JobTable) (m : Metrics) → I rows m → I (env.meanwhile at rows) m

-- The fact holds in the state that a statement leaves.
unfoldable pub Kept : {S A : Type 0} → (JobTable → Metrics → Type 0) → Work S × A → Type 0
Kept I r = I r.0.rows r.0.metrics

module _ {S : Type 0} (env : Env S) (plan : Plan) (I : JobTable → Metrics → Type 0)
    (closed : Closed env plan.job_id I) where
  abbrev Holds : Work S → Type 0
  Holds w = I w.rows w.metrics

  abbrev After : {A : Type 0} → Work S × A → Type 0
  After r = Kept I r

  stay : {A : Type 0} (a : A) (w : Work S) → Holds w → After (w, a)
  unfolding Kept
  stay a w h = h

  then_stage-After :
      (t : Stage env plan) (f : Value → Work S → Stage env plan)
      → After t
      → ((v : Value) (w : Work S) → Holds w → After (f v w))
      → After (then_stage env plan t f)
  unfolding Kept
  then_stage-After (w, none) f h k = h
  then_stage-After (w, some v) f h k = k v w h

  fed-After :
      (v : Value) (w : Work S) (p : SamplingBuffer × Bool) → Holds w → After (fed env plan v w p)
  unfolding Kept
  fed-After v w (b, true) h = h
  fed-After v w (b, false) h = h

  sampled-After :
      (b : Option SamplingBuffer) (v : Value) (w : Work S)
      → Holds w
      → After (sampled env plan b v w)
  unfolding Kept
  sampled-After none v w h = h
  sampled-After (some b) v w h = fed-After v w _ h

  kept_or_skipped-After :
      (w : Work S) (o : Option Value) → Holds w → After (kept_or_skipped env plan w o)
  unfolding Kept
  kept_or_skipped-After w none h = h
  kept_or_skipped-After w (some v) h = h

  extracted-After : (b : Bool) (v : Value) (w : Work S) → Holds w → After (extracted env plan b v w)
  unfolding Kept
  extracted-After true v w h = kept_or_skipped-After w _ h
  extracted-After false v w h = h

  with_assets-After :
      (w : Work S) (p : S × Try Entries) → Holds w → After (with_assets env plan w p)
  unfolding Kept
  with_assets-After w (s, returns fs) h = h
  with_assets-After w (s, raises e) h = elim (Bool-cases (env.is_exception e)) [
    | inl x ↦ rw x h
    | inr x ↦ rw x h
  ]

  then_resolve-After :
      (t : Stage env plan) (f : Value → Work S → Prepared env plan)
      → After t
      → ((v : Value) (w : Work S) → Holds w → After (f v w))
      → After (then_resolve env plan t f)
  unfolding Kept
  then_resolve-After (w, none) f h k = h
  then_resolve-After (w, some v) f h k = k v w h

  unless_refused-After :
      {A : Type 0} (o : Option String) (w : Work S) (r : Work S × Try A)
      → Holds w
      → After r
      → After (unless_refused o w r)
  unfolding Kept
  unless_refused-After none w r h k = k
  unless_refused-After (some e) w r h k = h

  resolve_entries-After :
      (o : Option Entries) (s : S) (w : Work S) → Holds w → After (resolve_entries env plan o s w)
  unfolding Kept
  resolve_entries-After none s w h = h
  resolve_entries-After (some fs) s w h = with_assets-After w _ h

  assets_resolved-After :
      (b : Bool) (t : Option S) (v : Value) (w : Work S)
      → Holds w
      → After (assets_resolved env plan b t v w)
  unfolding Kept
  assets_resolved-After true (some s) v w h = resolve_entries-After (as_entries v) s w h
  assets_resolved-After true none v w h = h
  assets_resolved-After false t v w h = h

  masked-After : (v : Value) (w : Work S) → Holds w → After (masked env plan v w)
  unfolding Kept
  masked-After v w h = h

  prepared-After : (v : Value) (w : Work S) → Holds w → After (prepared env plan v w)
  unfolding prepared
  prepared-After v w h =
      then_resolve-After _ _
        (then_stage-After _ _
          (then_stage-After _ _ (sampled-After w.buffer v w h)
            (extracted-After plan.field_extraction))
          masked-After)
        (λ v' w' h'. assets_resolved-After (resolves env plan) w'.asset v' w' h')

  posted-After : (w : Work S) (p : S × Try String) → Holds w → After (posted env plan w p)
  unfolding Kept
  posted-After w (s, raises e) h = h
  posted-After w (s, returns ref) h = h

  post_to-After : (o : Option S) (v : Value) (w : Work S) → Holds w → After (post_to env plan o v w)
  unfolding Kept
  post_to-After none v w h = h
  post_to-After (some s) v w h = posted-After w _ h

  post-After : (t : Prepared env plan) → After t → After (post env plan t)
  unfolding Kept
  post-After (w, raises e) h = h
  post-After (w, returns none) h = h
  post-After (w, returns (some v)) h = post_to-After w.main v w h

  unless_stopped-After :
      {A : Type 0} (a : A) (r : Work S × Try Bool) (k : Work S → Work S × Try A)
      → After r
      → ((w : Work S) → Holds w → After (k w))
      → After (unless_stopped env plan a r k)
  unfolding Kept
  unless_stopped-After a (w, raises e) k h f = h
  unless_stopped-After a (w, returns true) k h f = h
  unless_stopped-After a (w, returns false) k h f = f w h

  process_records-After :
      (vs : List Value) (w : Work S) → Holds w → After (process_records env plan vs w)
  unfolding process_records process_record
  process_records-After [] w h = stay _ w h
  process_records-After (v ∷ vs) w h =
      unless_stopped-After true _ _ (post-After _ (prepared-After v w h)) (process_records-After vs)

  end_batch-After :
      (offset : ℕ) (r : Work S × Try Bool) → After r → After (end_batch env plan offset r)
  unfolding Kept
  end_batch-After offset (w, raises e) h = h
  end_batch-After offset (w, returns b) h =
      let after = closed.by_others (after_batch offset) _ _ (closed.by_progress _ _ _ _ _ _ h) in
      unless_refused-After (env.refuses (write_progress offset)) w _ h (
        unless_refused-After (env.refuses (check_cancelled (after_batch offset)))
          (saved env plan offset w) (saved env plan offset w, returns _) after after)

  process_page-After :
      (offset : ℕ) (page : Try (List Value)) (w : Work S)
      → Holds w
      → After (process_page env plan offset page w)
  unfolding Kept
  process_page-After offset (raises e) w h = h
  process_page-After offset (returns vs) w h =
      end_batch-After offset _ (process_records-After vs w h)

  run_offsets-After :
      (adapter : Adapter) (offsets : List ℕ) (w : Work S)
      → Holds w
      → After (run_offsets env plan adapter offsets w)
  unfolding run_offsets
  run_offsets-After adapter [] w h = stay _ w h
  run_offsets-After adapter (k ∷ ks) w h =
      unless_stopped-After tt _ _ (process_page-After k _ w h) (run_offsets-After adapter ks)

  pub run_batches-After :
      (adapter : Adapter) (total : ℕ) (w : Work S)
      → Holds w
      → After (run_batches env plan adapter total w)
  unfolding run_batches
  run_batches-After adapter total w h = elim (Bool-cases (plan.batch_size == 0)) [
    | inl e ↦ rw e (stay _ w h)
    | inr e ↦ rw e (run_offsets-After adapter _ w h)
  ]
