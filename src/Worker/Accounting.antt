-- ===== src/Worker/Accounting.antt =====
-- The counters of the batch loop.
use databridge.Base.{
  ℕ, zero, suc, ◌+◌, ◌≤◌, ◌<◌, ◌≡◌, refl, ◌∙◌, arith, Bool, true, false, Option, none, some, List,
  [], ◌∷◌, Bool-cases, inl, inr, String, ◌⊎◌, ◌==◌, ltb, ltb→lt, if◌then◌else◌,
}
use databridge.Base.Lists.{length, take, drop, length-take, length-drop}
use databridge.Value.{Value, Entries}
use databridge.Sampling.{SamplingBuffer, feed}
use databridge.Extraction.{extract_field_value}
use databridge.Jobs.Store.{is_job_cancelled}
use databridge.Sink.{Try, returns, raises}
use databridge.Worker.State.{
  Adapter, Env, Work, after_batch, write_progress, check_cancelled, unless_refused,
}
use databridge.Worker.Loop.{
  Plan, range, saved, prepared, process_record, process_records, run_offsets, run_batches,
  limit_reached, Stage, Prepared, then_resolve, then_stage, sampled, fed, extracted,
  kept_or_skipped, assets_resolved, resolve_entries, as_entries, with_assets, resolves, post,
  post_to, posted, unless_stopped, end_batch,
}

-- The records that were dealt with.
abbrev handled : {S : Type 0} → Work S → ℕ
handled w = w.records_processed + w.records_skipped

module _ {S : Type 0} (env : Env S) (plan : Plan) where
  -- A stage counts a record when it skips it, and then alone; it never counts it as processed.
  abbrev Counted : Work S → Stage env plan → Type 0
  Counted w (w', none) =
      (w'.records_processed ≡ w.records_processed) × (w'.records_skipped ≡ w.records_skipped + 1)
  Counted w (w', some v) =
      (w'.records_processed ≡ w.records_processed) × (w'.records_skipped ≡ w.records_skipped)

  then_stage-Counted :
      (w : Work S) (t : Stage env plan) (f : Value → Work S → Stage env plan)
      → Counted w t
      → ((v : Value) (w' : Work S) → Counted w' (f v w'))
      → Counted w (then_stage env plan t f)
  then_stage-Counted w (w', none) f h k = h
  then_stage-Counted w (w', some v) f h k = through (f v w') (k v w')
    where
      through : (t : Stage env plan) → Counted w' t → Counted w t
      through (u, none) c = (c.0 ∙ h.0, omega (arith, c.1, h.1))
      through (u, some v') c = (c.0 ∙ h.0, c.1 ∙ h.1)

  sampled-Counted :
      (b : Option SamplingBuffer) (v : Value) (w : Work S) → Counted w (sampled env plan b v w)
  sampled-Counted none v w = (refl, refl)
  sampled-Counted (some b) v w = by_feed (feed env.divide env.codec b v (env.draw b.seen))
    where
      by_feed : (p : SamplingBuffer × Bool) → Counted w (fed env plan v w p)
      by_feed (b', true) = (refl, refl)
      by_feed (b', false) = (refl, refl)

  extracted-Counted : (b : Bool) (v : Value) (w : Work S) → Counted w (extracted env plan b v w)
  extracted-Counted false v w = (refl, refl)
  extracted-Counted true v w = by_value (extract_field_value env.codec v plan.field_extraction_path)
    where
      by_value : (o : Option Value) → Counted w (kept_or_skipped env plan w o)
      by_value none = (refl, refl)
      by_value (some v') = (refl, refl)

  -- What prepares a record counts it when it skips it, and not where it raises.
  abbrev pub PreparedCounted : Work S → Prepared env plan → Type 0
  PreparedCounted w (w', returns o) = Counted w (w', o)
  PreparedCounted w (w', raises e) =
      (w'.records_processed ≡ w.records_processed) × (w'.records_skipped ≡ w.records_skipped)

  then_resolve-Counted :
      (w : Work S) (t : Stage env plan) (f : Value → Work S → Prepared env plan)
      → Counted w t
      → ((v : Value) (w' : Work S) → PreparedCounted w' (f v w'))
      → PreparedCounted w (then_resolve env plan t f)
  then_resolve-Counted w (w', none) f h k = h
  then_resolve-Counted w (w', some v) f h k = through (f v w') (k v w')
    where
      through : (t : Prepared env plan) → PreparedCounted w' t → PreparedCounted w t
      through (u, returns none) c = (c.0 ∙ h.0, omega (arith, c.1, h.1))
      through (u, returns (some v')) c = (c.0 ∙ h.0, c.1 ∙ h.1)
      through (u, raises e) c = (c.0 ∙ h.0, c.1 ∙ h.1)

  with_assets-Counted :
      (w : Work S) (p : S × Try Entries) → PreparedCounted w (with_assets env plan w p)
  with_assets-Counted w (s, returns fs) = (refl, refl)
  with_assets-Counted w (s, raises e) = elim (Bool-cases (env.is_exception e)) [
    | inl x ↦ rw x (refl, refl)
    | inr x ↦ rw x (refl, refl)
  ]

  resolve_entries-Counted :
      (o : Option Entries) (s : S) (w : Work S) → PreparedCounted w (resolve_entries env plan o s w)
  resolve_entries-Counted none s w = (refl, refl)
  resolve_entries-Counted (some fs) s w = with_assets-Counted w _

  assets_resolved-Counted :
      (b : Bool) (t : Option S) (v : Value) (w : Work S)
      → PreparedCounted w (assets_resolved env plan b t v w)
  assets_resolved-Counted true (some s) v w = resolve_entries-Counted (as_entries v) s w
  assets_resolved-Counted true none v w = (refl, refl)
  assets_resolved-Counted false t v w = (refl, refl)

  pub prepared-Counted : (v : Value) (w : Work S) → PreparedCounted w (prepared env plan v w)
  unfolding prepared
  prepared-Counted v w =
      then_resolve-Counted w _ _
        (then_stage-Counted w _ _
          (then_stage-Counted w _ _ (sampled-Counted w.buffer v w)
            (extracted-Counted plan.field_extraction))
          (λ v' w'. (refl, refl)))
        (λ v' w'. assets_resolved-Counted (resolves env plan) w'.asset v' w')

  -- What a statement of the loop over `n` records leaves: it raised, or it stopped at the limit, or
  -- it dealt with all of them.
  abbrev Counts : ℕ → Work S → Work S × Try Bool → Type 0
  Counts n w (w', raises e) = Unit
  Counts n w (w', returns true) = limit_reached plan.max_items w'.records_processed ≡ true
  Counts n w (w', returns false) = handled w' ≡ handled w + n

  posted-Counts :
      (w w' : Work S) (p : S × Try String)
      → handled w' ≡ handled w
      → Counts 1 w (posted env plan w' p)
  posted-Counts w w' (s, raises e) h = tt
  posted-Counts w w' (s, returns ref) h =
      by_limit (limit_reached plan.max_items (w'.records_processed + 1)) refl
    where
      by_limit :
          (b : Bool)
          → limit_reached plan.max_items (w'.records_processed + 1) ≡ b
          → Counts 1 w
              (record w' { main = some s; records_processed = w'.records_processed + 1 }, returns b)
      by_limit true e = e
      by_limit false e = omega (arith, h)

  post_to-Counts :
      (w w' : Work S) (o : Option S) (v : Value)
      → handled w' ≡ handled w
      → Counts 1 w (post_to env plan o v w')
  post_to-Counts w w' none v h = tt
  post_to-Counts w w' (some s) v h = posted-Counts w w' _ h

  post-Counts :
      (w : Work S) (t : Prepared env plan) → PreparedCounted w t → Counts 1 w (post env plan t)
  post-Counts w (w', raises e) h = tt
  post-Counts w (w', returns none) h = omega (arith, h.0, h.1)
  post-Counts w (w', returns (some v)) h = post_to-Counts w w' w'.main v (omega (arith, h.0, h.1))

  process_record-Counts : (v : Value) (w : Work S) → Counts 1 w (process_record env plan v w)
  unfolding process_record
  process_record-Counts v w = post-Counts w _ (prepared-Counted v w)

  Counts-suc :
      (n : ℕ) (w w' : Work S) (r : Work S × Try Bool)
      → handled w' ≡ handled w + 1
      → Counts n w' r
      → Counts (suc n) w r
  Counts-suc n w w' (u, raises e) h c = tt
  Counts-suc n w w' (u, returns true) h c = c
  Counts-suc n w w' (u, returns false) h c = omega (arith, h, c)

  after_record :
      (n : ℕ) (w : Work S) (r : Work S × Try Bool) (rest : Work S → Work S × Try Bool)
      → Counts 1 w r
      → ((w' : Work S) → Counts n w' (rest w'))
      → Counts (suc n) w (unless_stopped env plan true r rest)
  after_record n w (w', raises e) rest c f = tt
  after_record n w (w', returns true) rest c f = c
  after_record n w (w', returns false) rest c f = Counts-suc n w w' (rest w') c (f w')

  process_records-Counts :
      (vs : List Value) (w : Work S) → Counts (length vs) w (process_records env plan vs w)
  unfolding process_records
  process_records-Counts [] w = omega arith
  process_records-Counts (v ∷ vs) w =
      after_record (length vs) w _ _ (process_record-Counts v w) (process_records-Counts vs)

  -- Why a loop over `n` records returned: the limit, a cancellation, or the end.
  abbrev pub Ended : ℕ → Work S → Work S × Try (Unit {0}) → Type 0
  Ended n w (w', raises e) = Unit
  Ended n w (w', returns u) =
      (limit_reached plan.max_items w'.records_processed ≡ true)
      ⊎ ((is_job_cancelled plan.job_id w'.rows ≡ true) ⊎ (handled w' ≡ handled w + n))

  Ended-add :
      (n m k : ℕ) (w w' : Work S) (r : Work S × Try (Unit {0}))
      → handled w' ≡ handled w + n
      → n + m ≡ k
      → Ended m w' r
      → Ended k w r
  Ended-add n m k w w' (u, raises e) h q c = tt
  Ended-add n m k w w' (u, returns x) h q (inl c) = inl c
  Ended-add n m k w w' (u, returns x) h q (inr (inl c)) = inr (inl c)
  Ended-add n m k w w' (u, returns x) h q (inr (inr c)) = inr (inr (omega (arith, h, q, c)))

  after_page :
      (n m k offset : ℕ) (w : Work S) (r : Work S × Try Bool)
      (rest : Work S → Work S × Try (Unit {0}))
      → n + m ≡ k
      → Counts n w r
      → ((w' : Work S) → Ended m w' (rest w'))
      → Ended k w (unless_stopped env plan tt (end_batch env plan offset r) rest)
  after_page n m k offset w (w', raises e) rest q c f = tt
  after_page n m k offset w (w', returns limited) rest q c f =
      by_statements (env.refuses (write_progress offset))
        (env.refuses (check_cancelled (after_batch offset)))
    where
      u : Work S
      u = saved env plan offset w'

      by_check :
          (b l : Bool)
          → is_job_cancelled plan.job_id u.rows ≡ b
          → Counts n w (w', returns l)
          → Ended k w (unless_stopped env plan tt (u, returns (if b then true else l)) rest)
      by_check true l e d = inr (inl e)
      by_check false true e d = inl d
      by_check false false e d = Ended-add n m k w u (rest u) d q (f u)

      by_statements :
          (o o' : Option String)
          → Ended k w (
              unless_stopped env plan tt
                (unless_refused o w' (
                  unless_refused o' u
                    (u, returns (if is_job_cancelled plan.job_id u.rows then true else limited))))
                rest)
      by_statements none none = by_check (is_job_cancelled plan.job_id u.rows) limited refl c
      by_statements none (some e) = tt
      by_statements (some e) o' = tt

  module _ (adapter : Adapter) (records : List Value)
      (pages : (offset : ℕ)
        → adapter.fetch_page plan.batch_size offset
          ≡ returns (take plan.batch_size (drop offset records))) where
    page_length :
        (offset : ℕ)
        → offset < length records
        → length (take plan.batch_size (drop offset records))
            + length (drop (offset + plan.batch_size) records)
          ≡ length (drop offset records)
    page_length offset h = omega (
      arith,
      length-take plan.batch_size (drop offset records),
      length-drop offset records,
      length-drop (offset + plan.batch_size) records,
    )

    run_offsets-Ended :
        (fuel offset : ℕ) (w : Work S)
        → 0 < plan.batch_size
        → length records ≤ offset + fuel
        → Ended
            (length (drop offset records))
            w
            (run_offsets env plan adapter (range fuel offset (length records) plan.batch_size) w)
    unfolding range run_offsets
    run_offsets-Ended zero offset w p h = inr (inr (omega (arith, length-drop offset records)))
    run_offsets-Ended (suc fuel) offset w p h = elim (Bool-cases (ltb offset (length records))) [
      | inl e ↦
          rw (e, pages offset)
            (after_page _ _ _ offset w _ _ (page_length offset (ltb→lt _ _ e))
              (process_records-Counts _ w)
              (λ w'. run_offsets-Ended fuel (offset + plan.batch_size) w' p (omega arith)))
      | inr e ↦ rw e (inr (inr (ground (arith, length-drop offset records))))
    ]

    -- The batch loop over a source that pages its records in order either raises, or ends because
    -- the limit is reached, or because the job was found cancelled, or else it has counted every
    -- record once, as processed or as skipped.
    pub run_batches-Ended :
        (w : Work S) → Ended (length records) w (run_batches env plan adapter (length records) w)
    unfolding run_batches
    run_batches-Ended w = elim (Bool-cases (plan.batch_size == 0)) [
      | inl e ↦ rw e tt
      | inr e ↦ rw e (run_offsets-Ended (length records) 0 w (ground arith) (omega arith))
    ]
