-- ===== src/Worker/Limit.antt =====
-- The limit `max_items` of a sampled job.
use databridge.Base.{
  ℕ, suc, ◌+◌, ◌≤◌, ◌<◌, ◌≡◌, refl, arith, Bool, true, false, Option, none, some, List, [], ◌∷◌,
  Bool-cases, inl, inr, String, ◌==◌, if◌then◌else◌,
}
use databridge.Value.{Value}
use databridge.Jobs.Store.{is_job_cancelled}
use databridge.Sink.{Try, returns, raises}
use databridge.Worker.State.{
  Adapter, Env, Work, after_batch, write_progress, check_cancelled, unless_refused,
}
use databridge.Worker.Accounting.{PreparedCounted, prepared-Counted}
use databridge.Worker.Loop.{
  Plan, saved, process_record, process_records, run_offsets, run_batches, limit_reached, Prepared,
  post, post_to, posted, unless_stopped, end_batch, process_page,
}

module _ {S : Type 0} (env : Env S) (plan : Plan) (n : ℕ)
    (limited : plan.max_items ≡ some (suc n)) where
  -- No more than the limit, and less where the loop goes on.
  abbrev Within : Work S × Try Bool → Type 0
  Within (w, returns false) = w.records_processed < suc n
  Within (w, returns true) = w.records_processed ≤ suc n
  Within (w, raises e) = w.records_processed ≤ suc n

  abbrev EndsWithin : Work S × Try (Unit {0}) → Type 0
  EndsWithin r = r.0.records_processed ≤ suc n

  posted-Within :
      (w : Work S) (p : S × Try String) → w.records_processed < suc n → Within (posted env plan w p)
  posted-Within w (s, raises e) h = omega arith
  posted-Within w (s, returns ref) h = rw limited (by_limit _ refl)
    where
      by_limit :
          (b : Bool)
          → limit_reached (some (suc n)) (w.records_processed + 1) ≡ b
          → Within
              (record w { main = some s; records_processed = w.records_processed + 1 }, returns b)
      by_limit true e = omega arith
      by_limit false e = ground arith

  post_to-Within :
      (w : Work S) (o : Option S) (v : Value)
      → w.records_processed < suc n
      → Within (post_to env plan o v w)
  post_to-Within w none v h = omega arith
  post_to-Within w (some s) v h = posted-Within w _ h

  post-Within :
      (w : Work S) (t : Prepared env plan)
      → PreparedCounted env plan w t
      → w.records_processed < suc n
      → Within (post env plan t)
  post-Within w (w', raises e) c h = omega (arith, c.0)
  post-Within w (w', returns none) c h = omega (arith, c.0)
  post-Within w (w', returns (some v)) c h = post_to-Within w' w'.main v (omega (arith, c.0))

  after_record :
      (r : Work S × Try Bool) (rest : Work S → Work S × Try Bool)
      → Within r
      → ((w : Work S) → w.records_processed < suc n → Within (rest w))
      → Within (unless_stopped env plan true r rest)
  after_record (w, raises e) rest c f = c
  after_record (w, returns true) rest c f = c
  after_record (w, returns false) rest c f = f w c

  process_records-Within :
      (vs : List Value) (w : Work S)
      → w.records_processed < suc n
      → Within (process_records env plan vs w)
  unfolding process_records process_record
  process_records-Within [] w h = h
  process_records-Within (v ∷ vs) w h =
      after_record _ _ (post-Within w _ (prepared-Counted env plan v w) h)
        (process_records-Within vs)

  after_page :
      (offset : ℕ) (r : Work S × Try Bool) (rest : Work S → Work S × Try (Unit {0}))
      → Within r
      → ((w : Work S) → w.records_processed < suc n → EndsWithin (rest w))
      → EndsWithin (unless_stopped env plan tt (end_batch env plan offset r) rest)
  after_page offset (w, raises e) rest c f = c
  after_page offset (w, returns b) rest c f =
      by_statements (env.refuses (write_progress offset))
        (env.refuses (check_cancelled (after_batch offset)))
    where
      by_check :
          (b' l : Bool)
          → Within (w, returns l)
          → EndsWithin (
              unless_stopped env plan tt
                (saved env plan offset w, returns (if b' then true else l))
                rest)
      by_check true true d = d
      by_check true false d = omega (arith, d)
      by_check false true d = d
      by_check false false d = f (saved env plan offset w) d

      no_more : (l : Bool) → Within (w, returns l) → w.records_processed ≤ suc n
      no_more true d = d
      no_more false d = omega (arith, d)

      by_statements :
          (o o' : Option String)
          → EndsWithin (
              unless_stopped env plan tt
                (unless_refused o w (
                  unless_refused o' (saved env plan offset w) (
                    saved env plan offset w,
                    returns (
                        if is_job_cancelled plan.job_id (saved env plan offset w).rows
                        then true
                        else b),
                  )))
                rest)
      by_statements none none =
          by_check (is_job_cancelled plan.job_id (saved env plan offset w).rows) b c
      by_statements none (some e) = no_more b c
      by_statements (some e) o' = no_more b c

  run_offsets-Within :
      (adapter : Adapter) (offsets : List ℕ) (w : Work S)
      → w.records_processed < suc n
      → EndsWithin (run_offsets env plan adapter offsets w)
  unfolding run_offsets
  run_offsets-Within adapter [] w h = omega (arith, h)
  run_offsets-Within adapter (k ∷ ks) w h =
      by_page (adapter.fetch_page plan.batch_size k) (run_offsets-Within adapter ks)
    where
      by_page :
          (page : Try (List Value))
          → ((u : Work S)
              → u.records_processed < suc n
              → EndsWithin (run_offsets env plan adapter ks u))
          → EndsWithin (
              unless_stopped env plan tt
                (process_page env plan k page w)
                (run_offsets env plan adapter ks))
      by_page (raises e) f = omega (arith, h)
      by_page (returns vs) f = after_page k _ _ (process_records-Within vs w h) f

  -- However the batch loop ends, also by an exception, and whatever the source pages: a job with
  -- the limit `max_items`, not 0, has not processed more records than it allows, if it had
  -- processed fewer before.
  pub run_batches-within_limit :
      (adapter : Adapter) (total : ℕ) (w : Work S)
      → w.records_processed < suc n
      → (run_batches env plan adapter total w).0.records_processed ≤ suc n
  unfolding run_batches
  run_batches-within_limit adapter total w h = elim (Bool-cases (plan.batch_size == 0)) [
    | inl e ↦ rw e (omega (arith, h))
    | inr e ↦ rw e (run_offsets-Within adapter _ w h)
  ]
