-- ===== src/Worker/Loop.antt =====
-- export/worker.py: the batch loop of `run_export_job`.
use databridge.Base.{
  ℕ, zero, suc, ◌+◌, Bool, true, false, not, ◌&&◌, Option, none, some, List, [], ◌∷◌, String, leb,
  ltb, ◌==◌, if◌then◌else◌,
}
use databridge.Base.Text.{is_empty}
use databridge.Value.{Value, text, dict, list, nil, Entries, done}
use databridge.Extraction.{extract_field_value}
use databridge.Masking.{MaskingRule, apply_masking}
use databridge.Sampling.{SamplingBuffer, feed}
use databridge.Asset.{resolve_assets}
use databridge.Jobs.Store.{update_export_progress, is_job_cancelled}
use databridge.Sink.{Try, returns, raises}
use databridge.Worker.State.{
  Adapter, Env, after_batch, Work, Run, write_progress, check_cancelled, unless_refused,
}

-- What the loop reads of the job.
pub record Plan : Type 0 where
  pub job_id : String
  pub destination_dataset : String
  pub masking_rules : List MaskingRule
  pub field_extraction : Bool
  pub field_extraction_path : String
  pub asset_resolution : Bool
  pub asset_url_fields : List String
  pub asset_url_prefix : String
  pub asset_dataset : String
  pub max_items : Option ℕ
  pub batch_size : ℕ

-- `range(start, stop, step)`, which has at most `fuel` numbers
unfoldable pub range : ℕ → ℕ → ℕ → ℕ → List ℕ
range zero start stop step = []
range (suc fuel) start stop step =
    let rest = range fuel (start + step) stop step in if ltb start stop then start ∷ rest else []

-- `dict(record)`, where it does not raise; a list of pairs, which no source returns, is refused
abbrev pub as_entries : Value → Option Entries
as_entries (dict fs) = some fs
as_entries (list nil) = some done
as_entries (text s) = if is_empty s then some done else none
as_entries v = none

abbrev has_fields : List String → Bool
has_fields [] = false
has_fields (f ∷ fs) = true

-- `max_items and records_processed >= max_items`
abbrev pub limit_reached : Option ℕ → ℕ → Bool
limit_reached none processed = false
limit_reached (some zero) processed = false
limit_reached (some (suc n)) processed = leb (suc n) processed

module _ {S : Type 0} (env : Env S) (plan : Plan) where
  abbrev pub skip : Work S → Work S
  skip w = record w { records_skipped = w.records_skipped + 1 }

  -- A stage passes the record on, or skips it (`continue`).
  abbrev pub Stage : Type 0
  Stage = Work S × Option Value

  abbrev pub then_stage : Stage → (Value → Work S → Stage) → Stage
  then_stage (w, none) f = (w, none)
  then_stage (w, some v) f = f v w

  abbrev pub fed : Value → Work S → SamplingBuffer × Bool → Stage
  fed v w (b, true) = (record w { buffer = some b }, some v)
  fed v w (b, false) = (skip (record w { buffer = some b }), none)

  -- "Sampling filter"
  abbrev pub sampled : Option SamplingBuffer → Value → Work S → Stage
  sampled none v w = (w, some v)
  sampled (some b) v w = fed v w (feed env.divide env.codec b v (env.draw b.seen))

  abbrev pub kept_or_skipped : Work S → Option Value → Stage
  kept_or_skipped w none = (skip w, none)
  kept_or_skipped w (some v) = (w, some v)

  -- "Field extraction"
  abbrev pub extracted : Bool → Value → Work S → Stage
  extracted true v w =
      kept_or_skipped w (extract_field_value env.codec v plan.field_extraction_path)
  extracted false v w = (w, some v)

  -- "Masking"
  abbrev pub masked : Value → Work S → Stage
  masked v w = (w, some (apply_masking env.codec v plan.masking_rules))

  abbrev failed_asset : Work S → Work S
  failed_asset w = record w {
    records_skipped = w.records_skipped + 1;
    asset_errors = w.asset_errors + 1;
  }

  -- The record that is to be posted, if one is, or what was raised.
  abbrev pub Prepared : Type 0
  Prepared = Work S × Try (Option Value)

  abbrev pub then_resolve : Stage → (Value → Work S → Prepared) → Prepared
  then_resolve (w, none) f = (w, returns none)
  then_resolve (w, some v) f = f v w

  -- `except Exception` around the resolution
  abbrev asset_failure : Bool → String → Work S → Prepared
  asset_failure true e w = (failed_asset w, returns none)
  asset_failure false e w = (w, raises e)

  abbrev pub with_assets : Work S → S × Try Entries → Prepared
  with_assets w (s, returns fs) = (record w { asset = some s }, returns (some (dict fs)))
  with_assets w (s, raises e) = asset_failure (env.is_exception e) e (record w { asset = some s })

  abbrev pub resolve_entries : Option Entries → S → Work S → Prepared
  resolve_entries none s w = (failed_asset w, returns none)
  resolve_entries (some fs) s w = with_assets w (
      resolve_assets env.http env.codec env.sink plan.asset_url_prefix plan.asset_dataset
        plan.asset_url_fields fs s)

  -- `asset_resolution and asset_sink and asset_url_fields and asset_dataset`
  abbrev pub assets_resolved : Bool → Option S → Value → Work S → Prepared
  assets_resolved true (some s) v w = resolve_entries (as_entries v) s w
  assets_resolved wanted target v w = (w, returns (some v))

  abbrev pub resolves : Bool
  resolves =
      plan.asset_resolution
      && (has_fields plan.asset_url_fields && not (is_empty plan.asset_dataset))

  -- What is done to a record before it is posted.
  unfoldable pub prepared : Value → Work S → Prepared
  prepared v w =
      then_resolve
        (then_stage (then_stage (sampled w.buffer v w) (extracted plan.field_extraction)) masked)
        (λ v' w'. assets_resolved resolves w'.asset v' w')

  abbrev pub posted : Work S → S × Try String → Work S × Try Bool
  posted w (s, raises e) = (record w { main = some s }, raises e)
  posted w (s, returns ref) = (
    record w { main = some s; records_processed = w.records_processed + 1 },
    returns (limit_reached plan.max_items (w.records_processed + 1)),
  )

  abbrev pub post_to : Option S → Value → Work S → Work S × Try Bool
  post_to none v w = (w, raises "no sink")
  post_to (some s) v w = posted w (env.sink.post_file plan.destination_dataset v none s)

  -- `true` where the limit is reached
  abbrev pub post : Prepared → Work S × Try Bool
  post (w, raises e) = (w, raises e)
  post (w, returns none) = (w, returns false)
  post (w, returns (some v)) = post_to w.main v w

  unfoldable pub process_record : Value → Work S → Work S × Try Bool
  process_record v w = post (prepared v w)

  abbrev pub unless_stopped :
      {A : Type 0} → A → Work S × Try Bool → (Work S → Work S × Try A) → Work S × Try A
  unless_stopped stopped (w, raises e) k = (w, raises e)
  unless_stopped stopped (w, returns true) k = (w, returns stopped)
  unless_stopped stopped (w, returns false) k = k w

  -- `for record in records`
  unfoldable pub process_records : List Value → Work S → Work S × Try Bool
  process_records [] w = (w, returns false)
  process_records (v ∷ vs) w = unless_stopped true (process_record v w) (process_records vs)

  abbrev pub saved : ℕ → Work S → Work S
  saved offset w = record w {
    rows = env.meanwhile (after_batch offset) (
        update_export_progress plan.job_id w.records_processed w.records_skipped w.asset_errors
          (env.clock (after_batch offset)) w.rows);
  }

  -- The progress is written, others may act, and a cancellation stops the loop as the limit does.
  abbrev pub end_batch : ℕ → Work S × Try Bool → Work S × Try Bool
  end_batch offset (w, raises e) = (w, raises e)
  end_batch offset (w, returns limited) =
      let w' = saved offset w in
      unless_refused (env.refuses (write_progress offset)) w (
        unless_refused (env.refuses (check_cancelled (after_batch offset))) w'
          (w', returns (if is_job_cancelled plan.job_id w'.rows then true else limited)))

  abbrev pub process_page : ℕ → Try (List Value) → Work S → Work S × Try Bool
  process_page offset (raises e) w = (w, raises e)
  process_page offset (returns records) w = end_batch offset (process_records records w)

  -- `for offset in range(0, total, batch_size)`
  unfoldable pub run_offsets : Adapter → List ℕ → Run S (Unit {0})
  run_offsets adapter [] w = (w, returns tt)
  run_offsets adapter (offset ∷ offsets) w =
      unless_stopped tt (process_page offset (adapter.fetch_page plan.batch_size offset) w)
        (run_offsets adapter offsets)

  unfoldable pub run_batches : Adapter → ℕ → Run S (Unit {0})
  run_batches adapter total w =
      if plan.batch_size == 0
      then (w, raises "range() arg 3 must not be zero")
      else run_offsets adapter (range total 0 total plan.batch_size) w

abbrev outcome_of : {S : Type 0} → S × Try (Unit {0}) → Try S
outcome_of (s, returns u) = returns s
outcome_of (s, raises e) = raises e

-- A call of a sink gives the sink's new state.
unfoldable pub sink_call : {S : Type 0} → (S → S × Try (Unit {0})) → S → Run S S
sink_call f s w = (w, outcome_of (f s))
