-- ===== src/Worker/State.antt =====
-- What a run of the worker reads and writes, and how its statements are composed.
use databridge.Base.{ℕ, Bool, true, false, Option, none, some, List, String}
use databridge.Value.{Value, Codec}
use databridge.Sampling.{Float, SamplingBuffer}
use databridge.Jobs.{Instant, JobTable, ExportJob, ExportJobStatus}
use databridge.Config.{Settings, DatasinkConfig, SystemSourceConfig}
use databridge.Sink.{Try, returns, raises, Sink}
use databridge.Asset.{Http}

-- `ExportableAdapter` of adapters.py, for the query and the time range of the job
pub record Adapter : Type 0 where
  pub count : Try ℕ
  pub fetch_page : ℕ → ℕ → Try (List Value)

-- Where the worker waits while others may change the table.
pub data Moment : Type 0 where
  at_start : Moment
  after_batch : ℕ → Moment
  at_end : Moment

-- The statements that a run sends to the database.
pub data Query : Type 0 where
  load_job : Query
  write_status : ExportJobStatus → Query
  write_total : Query
  write_external : Moment → Query
  write_external_asset : Moment → Query
  write_progress : ℕ → Query
  check_cancelled : Moment → Query

pub record Env (S : Type 0) : Type 0 where
  pub settings : Settings
  pub codec : Codec
  pub http : Http
  -- `repr` of a text
  pub repr : String → String
  pub divide : Float → Float → Float
  -- `random.random()` for the n-th record that is fed to the sampling buffer
  pub draw : ℕ → Float
  pub clock : Moment → Instant
  -- what other processes do to the table at that moment
  pub meanwhile : Moment → JobTable → JobTable
  -- what a statement raises, if it does; it changes nothing then
  pub refuses : Query → Option String
  -- whether what was raised, by its text, is an Exception: the CancelledError by which the queue stops
  -- a run, which any call that is awaited may raise, is not
  pub is_exception : String → Bool
  -- `str(uuid5(NAMESPACE_DNS, name))`, the id of a system source
  pub source_id : String → String
  -- the adapter of a stored connection, if there is one of that id, and of a system source; the
  -- credentials may fail to decrypt, and there may be no adapter of the type
  pub open_connection : String → ExportJob → Try (Option Adapter)
  pub open_system : SystemSourceConfig → ExportJob → Try Adapter
  -- `get_sink` with `_job_id` set: a new sink's state
  pub new_sink : DatasinkConfig → String → Try S
  pub sink : Sink S

pub record Metrics : Type 0 where
  pub active_inc : ℕ
  pub active_dec : ℕ
  pub completed : ℕ
  pub failed : ℕ

-- A webhook that is sent: where to, and what its payload is rendered from.
pub record Notice : Type 0 where
  pub url : String
  pub job_id : String
  pub status : String
  pub org_id : String
  pub destination_dataset : String
  pub records_processed : ℕ
  pub records_skipped : ℕ
  pub error : String
  pub download_url : String
  pub assets_download_url : String

pub record Work (S : Type 0) : Type 0 where
  pub rows : JobTable
  pub main : Option S
  pub asset : Option S
  pub buffer : Option SamplingBuffer
  pub records_processed : ℕ
  pub records_skipped : ℕ
  pub asset_errors : ℕ
  pub webhook_url : Option String
  pub webhook_enabled : Bool
  pub metrics : Metrics
  pub sent : List Notice

-- A statement changes the state, and returns or raises.
abbrev pub Run : Type 0 → Type 0 → Type 0
Run S A = Work S → Work S × Try A

module _ {S : Type 0} where
  abbrev pub continue : {A B : Type 0} → Try A → (A → Run S B) → Run S B
  continue (returns a) f w = f a w
  continue (raises e) f w = (w, raises e)

  infixl 10 ◌>>=◌ ◌>>◌
  unfoldable pub ◌>>=◌ : {A B : Type 0} → Run S A → (A → Run S B) → Run S B
  ◌>>=◌ m f w = let (w', r) = m w in continue r f w'

  abbrev pub ◌>>◌ : {B : Type 0} → Run S (Unit {0}) → Run S B → Run S B
  m >> k = m >>= λ _. k

  unfoldable pub pure : {A : Type 0} → A → Run S A
  pure a w = (w, returns a)

  unfoldable pub lift : {A : Type 0} → Try A → Run S A
  lift r w = (w, r)

  unfoldable pub modify : (Work S → Work S) → Run S (Unit {0})
  modify f w = (f w, returns tt)

  -- a statement on the table, and what it raises, if it does
  unfoldable pub execute : Option String → (JobTable → JobTable) → Run S (Unit {0})
  execute none f w = (record w { rows = f w.rows }, returns tt)
  execute (some e) f w = (w, raises e)

  -- what follows a statement, unless it raises
  abbrev pub unless_refused :
      {A : Type 0} → Option String → Work S → Work S × Try A → Work S × Try A
  unless_refused none w r = r
  unless_refused (some e) w r = (w, raises e)

  -- reading the state
  unfoldable pub read : {A : Type 0} → (Work S → Run S A) → Run S A
  read f w = f w w

  abbrev pub when : Bool → Run S (Unit {0}) → Run S (Unit {0})
  when true m = m
  when false m = pure tt
