-- ===== src/Worker/Complete.antt =====
-- What reaches the sink, for a job that neither samples nor resolves assets.
use databridge.Base.{
  map, ℕ, zero, suc, ◌+◌, ◌≤◌, ◌<◌, ◌≡◌, refl, ap, sym, ◌∙◌, arith, Bool, true, false, ◌&&◌, Option,
  none, some, List, [], ◌∷◌, ◌++◌, Bool-cases, inl, inr, ◌==◌, ltb, if◌then◌else◌,
}
use databridge.Base.Lists.{
  map-append, All-split, All, length, take, drop, drop-drop, take-append-drop, drop-all,
  append_assoc, append_nil,
}
use databridge.Value.{Value}
use databridge.Extraction.{extract_field_value}
use databridge.Masking.{apply_masking}
use databridge.Sampling.{SamplingBuffer}
use databridge.Jobs.{JobTable}
use databridge.Jobs.Table.{is_job_cancelled-update_export_progress}
use databridge.Jobs.Store.{is_job_cancelled}
use databridge.Sink.{Try, returns, Recording}
use databridge.Worker.State.{
  Adapter, Env, after_batch, Work, Query, write_progress, check_cancelled,
}
use databridge.Worker.Loop.{
  Plan, range, saved, prepared, process_record, process_records, run_offsets, run_batches, Stage,
  Prepared, then_resolve, then_stage, sampled, masked, extracted, kept_or_skipped, assets_resolved,
  resolves, post, unless_stopped, end_batch,
}

module _ {S : Type 0} (env : Env S) (plan : Plan) where
  -- What the export is to write for a record, in the record's order: the extracted field or the
  -- record, masked; nothing where the extraction fails.
  abbrev masked_of : Option Value → List Value
  masked_of none = []
  masked_of (some v) = apply_masking env.codec v plan.masking_rules ∷ []

  abbrev written : Value → List Value
  written v = masked_of (
      if plan.field_extraction
      then extract_field_value env.codec v plan.field_extraction_path
      else some v)

  abbrev exported : List Value → List Value
  exported [] = []
  exported (v ∷ vs) = written v ++ exported vs

  exported-append : (xs ys : List Value) → exported (xs ++ ys) ≡ exported xs ++ exported ys
  exported-append [] ys = refl
  exported-append (x ∷ xs) ys =
      ap (λ r. written x ++ r) (exported-append xs ys)
      ∙ sym (append_assoc (written x) (exported xs) (exported ys))

  module _ {C : Type 0} (rec : Recording S C env.sink plan.destination_dataset)
      (plain : plan.asset_resolution ≡ false) (unlimited : plan.max_items ≡ none) where
    -- The main sink is ready and holds this; the job does not sample and is not cancelled.
    abbrev pub Holds : Work S → List C → Type 0
    Holds w ps =
        (w.buffer ≡ none)
        × (is_job_cancelled plan.job_id w.rows ≡ false)
        × (s : S) × (w.main ≡ some s)
        × (rec.ready s ≡ true)
        × (rec.contents s ≡ ps)

    abbrev Went : {A : Type 0} → A → List C → Work S × Try A → Type 0
    Went a ps r = (r.1 ≡ returns a) × Holds r.0 ps

    abbrev Taken : List Value → Type 0
    Taken = All (λ v. rec.takes v ≡ true)

    post-Went :
        (w : Work S) (ps : List C) (v : Value)
        → Holds w ps
        → rec.takes v ≡ true
        → Went false (ps ++ rec.line v ∷ []) (post env plan (w, returns (some v)))
    post-Went w ps v (b, live, s, m, r, c) t =
        let (ref, s', posts, grown, still) = rec.records v s r t in
        rw (m, posts)
          (
            rw unlimited refl,
            (b, live, s', refl, still, grown ∙ ap (λ r'. r' ++ rec.line v ∷ []) c),
          )

    -- What a stage passes on, without any assets.
    abbrev passed : Stage env plan → Prepared env plan
    passed (w, o) = (w, returns o)

    after_extraction :
        (w : Work S) (ps : List C) (o : Option Value)
        → Holds w ps
        → Taken (masked_of o)
        → Went false (ps ++ map rec.line (masked_of o)) (
            post env plan
              (passed (then_stage env plan (kept_or_skipped env plan w o) (masked env plan))))
    after_extraction w ps none h t = (refl, rw (append_nil ps) h)
    after_extraction w ps (some v) h t = post-Went w ps _ h t.0

    unresolved :
        (b : Bool) (t : Stage env plan)
        → b ≡ false
        → then_resolve env plan t (λ v w. assets_resolved env plan b w.asset v w) ≡ passed t
    unresolved true t e = cc
    unresolved false (w, none) e = refl
    unresolved false (w, some v) e = refl

    unsampled :
        (b : Option SamplingBuffer) (v : Value) (w : Work S)
        → b ≡ none
        → sampled env plan b v w ≡ (w, some v)
    unsampled none v w e = refl
    unsampled (some b) v w e = cc

    and_false : (a b : Bool) → a ≡ false → (a && b) ≡ false
    and_false true b e = cc
    and_false false b e = refl

    prepared-plain :
        (v : Value) (w : Work S)
        → w.buffer ≡ none
        → prepared env plan v w
          ≡ passed
              (then_stage env plan (extracted env plan plan.field_extraction v w) (masked env plan))
    unfolding prepared
    prepared-plain v w h =
        unresolved (resolves env plan) _ (and_false plan.asset_resolution _ plain)
        ∙ ap
            (λ t. passed (
              then_stage env plan (then_stage env plan t (extracted env plan plan.field_extraction))
                (masked env plan)))
            (unsampled w.buffer v w h)

    process_record-Went :
        (v : Value) (w : Work S) (ps : List C)
        → Holds w ps
        → Taken (written v)
        → Went false (ps ++ map rec.line (written v)) (process_record env plan v w)
    unfolding process_record
    process_record-Went v w ps h t =
        rw (prepared-plain v w h.0) (by_extraction plan.field_extraction t)
      where
        result : Bool → List Value
        result b =
            masked_of
              (if b then extract_field_value env.codec v plan.field_extraction_path else some v)

        by_extraction :
            (b : Bool)
            → Taken (result b)
            → Went false (ps ++ map rec.line (result b)) (
                post env plan
                  (passed (then_stage env plan (extracted env plan b v w) (masked env plan))))
        by_extraction true = after_extraction w ps _ h
        by_extraction false = after_extraction w ps (some v) h

    after_record :
        (ps qs : List C) (r : Work S × Try Bool) (rest : Work S → Work S × Try Bool)
        → Went false ps r
        → ((w : Work S) → Holds w ps → Went false qs (rest w))
        → Went false qs (unless_stopped env plan true r rest)
    after_record ps qs (w, r) rest c f = rw c.0 (f w c.1)

    process_records-Went :
        (vs : List Value) (w : Work S) (ps : List C)
        → Holds w ps
        → Taken (exported vs)
        → Went false (ps ++ map rec.line (exported vs)) (process_records env plan vs w)
    unfolding process_records
    process_records-Went [] w ps h t = (refl, rw (append_nil ps) h)
    process_records-Went (v ∷ vs) w ps h t =
        let (here, later) = All-split _ (written v) (exported vs) t in
        rw
          (
            map-append rec.line (written v) (exported vs),
            sym (append_assoc ps (map rec.line (written v)) (map rec.line (exported vs))),
          )
          (after_record (ps ++ map rec.line (written v)) _ _ _ (process_record-Went v w ps h here)
            (λ w' h'. process_records-Went vs w' _ h' later))

    module _ (adapter : Adapter) (records : List Value)
        (pages : (offset : ℕ)
          → adapter.fetch_page plan.batch_size offset
            ≡ returns (take plan.batch_size (drop offset records)))
        (undisturbed : (offset : ℕ) (rows : JobTable)
          → is_job_cancelled plan.job_id rows ≡ false
          → is_job_cancelled plan.job_id (env.meanwhile (after_batch offset) rows) ≡ false)
        (accepted : (query : Query) → env.refuses query ≡ none) where
      after_page :
          (offset : ℕ) (ps qs : List C) (r : Work S × Try Bool)
          (rest : Work S → Work S × Try (Unit {0}))
          → Went false ps r
          → ((w : Work S) → Holds w ps → Went tt qs (rest w))
          → Went tt qs (unless_stopped env plan tt (end_batch env plan offset r) rest)
      after_page offset ps qs (w, r) rest (e, (b, live, s, m, k, c)) f =
          let live' : is_job_cancelled plan.job_id (saved env plan offset w).rows ≡ false =
            undisturbed offset _
              (is_job_cancelled-update_export_progress plan.job_id _ _ _ _ w.rows live) in
          rw
            (
              e,
              accepted (write_progress offset),
              accepted (check_cancelled (after_batch offset)),
              live',
            )
            (f (saved env plan offset w) (b, live', s, m, k, c))

      page_exported :
          (offset : ℕ)
          → exported (drop offset records)
            ≡ exported (take plan.batch_size (drop offset records))
              ++ exported (drop (offset + plan.batch_size) records)
      page_exported offset =
          ap exported (sym (take-append-drop plan.batch_size (drop offset records)))
          ∙ exported-append _ _
          ∙ ap (λ r. exported (take plan.batch_size (drop offset records)) ++ exported r)
              (drop-drop plan.batch_size offset records)

      page_lines :
          (offset : ℕ)
          → map rec.line (exported (drop offset records))
            ≡ map rec.line (exported (take plan.batch_size (drop offset records)))
              ++ map rec.line (exported (drop (offset + plan.batch_size) records))
      page_lines offset =
          ap (map rec.line) (page_exported offset)
          ∙ map-append rec.line (exported (take plan.batch_size (drop offset records))) _

      run_offsets-Went :
          (fuel offset : ℕ) (w : Work S) (ps : List C)
          → 0 < plan.batch_size
          → length records ≤ offset + fuel
          → Holds w ps
          → Taken (exported (drop offset records))
          → Went tt
              (ps ++ map rec.line (exported (drop offset records)))
              (run_offsets env plan adapter (range fuel offset (length records) plan.batch_size) w)
      unfolding range run_offsets
      run_offsets-Went zero offset w ps p h k t =
          (refl, rw (drop-all offset records (omega arith), append_nil ps) k)
      run_offsets-Went (suc fuel) offset w ps p h k t =
          let (here, later) =
            All-split (λ v. rec.takes v ≡ true)
              (exported (take plan.batch_size (drop offset records)))
              (exported (drop (offset + plan.batch_size) records))
              (rw (page_exported offset) at t) in
          elim (Bool-cases (ltb offset (length records))) [
            | inl e ↦
                rw
                  (
                    e,
                    pages offset,
                    page_lines offset,
                    sym (
                        append_assoc ps
                          (map rec.line (exported (take plan.batch_size (drop offset records))))
                          (map rec.line (exported (drop (offset + plan.batch_size) records)))),
                  )
                  (after_page offset _ _ _ _ (process_records-Went _ w ps k here) (λ w' k'.
                    run_offsets-Went fuel (offset + plan.batch_size) w' _ p (omega arith) k' later))
            | inr e ↦ rw (e, drop-all offset records (ground arith), append_nil ps) (refl, k)
          ]

      -- The batch loop over a source that pages these records in order, of a job that neither samples
      -- nor resolves assets, has no limit and is not cancelled, with a batch size other than 0, a
      -- database that answers, and a sink that is ready and takes every record as it is exported: it
      -- returns, and the dataset holds, after what it held before, what the sink makes of every record
      -- once and in order, as extracted and masked, less those whose extraction fails.
      pub run_batches_complete :
          (w : Work S) (ps : List C)
          → 0 < plan.batch_size
          → Holds w ps
          → Taken (exported records)
          → Went tt
              (ps ++ map rec.line (exported records))
              (run_batches env plan adapter (length records) w)
      unfolding run_batches
      run_batches_complete w ps p h t = elim (Bool-cases (plan.batch_size == 0)) [
        | inl e ↦ absurd (ground arith)
        | inr e ↦ rw e (run_offsets-Went (length records) 0 w ps p (omega arith) h t)
      ]
