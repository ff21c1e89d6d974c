-- ===== src/Lib.antt =====
-- databridge: export jobs that move records from configured sources to datasinks.
--
-- A client asks for an export job over HTTP (routes/export_jobs.py); the job is a row of the table
-- export_jobs (export/db.py) and its id waits in a queue; a worker (export/worker.py) takes it,
-- pages through the source, samples, extracts, masks and resolves the assets of each record, and
-- posts it to a sink; a periodic clean-up (export/sweep.py) fails stale jobs and deletes old ones.
-- All paths are below src/databridge/ of the repository.
--
-- Base, Base/Lists and Base/Text hold shared names and what the program uses of the standard
-- language. A native number is a count, an index, or an instant in microseconds.
--
-- Value models the values that JSON texts decode to. json.loads, json.dumps, str and sha256 are
-- the record Codec, a parameter.
--
-- Extraction and Masking model export/extraction.py and export/masking.py function by function.
-- The descent into a JSON text inside a record, and the writing back as text, are in
-- decode_and_index, reserialize and apply_at_path. Digits of a path's index are those of ASCII.
--
-- Sampling models export/sampling.py. A float is the exact fraction that it is; its division,
-- which rounds, is a parameter, as is each draw of random().
--
-- Jobs models export/models.py; Jobs/Store has one function on the list of rows for each statement
-- of export/db.py and Jobs/Sweep those of export/sweep.py. A column of JSON holds the value that
-- was written to it. A cutoff `now - t` is written as `t` added on the other side of the
-- comparison. SQL leaves the order of rows with one created_at open; the model takes the table's.
-- The lemmas are in Jobs/Table, Jobs/Access, Jobs/Cancel, Jobs/Listing, Jobs/Lifecycle,
-- Jobs/Overwrite and Jobs/Quota.
--
-- Config models the data classes of config.py, and Config/Validation its checks of datasink
-- entries.
--
-- Auth models auth.py: base64 and the classes of characters beyond ASCII are parameters.
--
-- Connections models db/connections.py, and Routes/Connections the handlers of
-- routes/connections.py that create, list, show, patch, delete and ping stored connections.
-- Encryption (crypto.py) and the adapters that are pinged are the record Backend, a parameter.
-- Routes/Connections/Explore models the handlers that preview a source and infer its schema, and
-- Routes/Connections/Trials those that name its personal fields and test it, on adapters that are
-- the record Sources, a parameter.
--
-- Adapters models what adapters.py computes around its input and output. Adapters/Columns and
-- Adapters/Rules are the functions that put column names and filter expressions into SQL,
-- Adapters/Literals the escaping of texts, beside what a database reads, by its documented syntax.
-- Adapters/ClickHouse, Adapters/Trino, Adapters/Langfuse and Adapters/S3 have the statements and
-- parameters of each source's requests and the parsing of its answers; Adapters/Schema infers the
-- fields of records, and Adapters/Registry has the choice of adapter and the slices of a time
-- range. Numbers and instants are printed by the record Format, a parameter. The replies of a
-- Trino server are a list: a reply is a page or an exception, and a list that ends early stands
-- for a lost connection; Adapters/Trino/Records reads a record beside its row. The listing of a bucket and the answers of DuckDB are parameters.
-- Letters, digits and spaces of expressions are those of ASCII, and so is the lower case.
--
-- Demo models db/demo_pool.py, the stand-in for the database: records are lists of columns, and
-- Demo/Dispatch takes the text of a statement and its arguments, as Demo/Jobs and Demo/Connections
-- do for the two tables. Demo/Statements has the texts and arguments that export/db.py sends and
-- Demo/Rows and its child modules its reading of a row; Demo/Table, Demo/Refines, Demo/Runs and
-- Demo/Queries compare the pool with the table of Jobs/Store, and Demo/Loss has a job on its way
-- through the pool. Lower case is that of ASCII here too.
--
-- Routes and Routes/ExportJobs model the handlers of routes/export_jobs.py on the table and the
-- queue: create, list, get, retry and cancel; Routes/Download models the download, where paths are
-- texts that are joined as the code joins them, unchecked names included, and whether a path exists
-- is a parameter; and Routes/WebhookTest the test of a webhook. Routes/Datasinks
-- models routes/datasinks.py. The answer of an HTTPException is its status code. The queue's
-- client is what it answers during the request.
--
-- Sink is the interface of sinks/base.py with an arbitrary state; Sink/LocalJsonl models
-- sinks/local_jsonl.py on a file system that does not fail, and Sink/LocalJsonl/Records has it as
-- such an interface; Asset is export/asset.py with the HTTP
-- client as a parameter, and Asset/Fields its search for fields that hold URLs. `dict(record)` of
-- a list of pairs is not modelled: records are dicts.
--
-- Worker models run_export_job of export/worker.py: Worker/State has what a run reads and writes
-- and the monad of its statements (state, and an exception as a text), Worker/Loop the batch loop.
-- The adapters, the sinks, the clock and what other processes do to the table at the moments when
-- the worker waits are parameters. range() is recursion on fuel, which is the record count: a step
-- is at least 1 where the loop runs, so there are never more batches than records. Which of the
-- run's statements the database refuses, and with what text, is the parameter `refuses`; a refused
-- statement raises and changes nothing. `is_exception` says which raised texts are Exceptions: the
-- CancelledError of the queue's time-out or shutdown is a text that is none, which any awaited call
-- may raise, and passes the handler as in the source. Worker/Attempt follows the exits of the `try`
-- block, Worker/Gauge the gauge of active jobs. Counters of Prometheus other than those of active,
-- completed and failed jobs, the throughput estimate and log lines are left out.
--
-- Webhook models the templates of export/webhook.py and the redaction of headers of security.py.
--
-- Not modelled: the sinks other than local_jsonl, the webhook's HTTP request and the pings of the
-- sources, which are input and output and stand as parameters; the clients of S3 and DuckDB; the
-- queue of the demo mode, which starts a task of the event loop; start-up, health and user
-- interface; the scripts of the client-side relay.
--
-- Tests runs the model on concrete inputs.
pub mod Base
pub mod Value
pub mod Extraction
pub mod Masking
pub mod Sampling
pub mod Jobs
pub mod Config
pub mod Adapters
pub mod Connections
pub mod Demo
pub mod Auth
pub mod Routes
pub mod Sink
pub mod Asset
pub mod Webhook
pub mod Worker
pub mod Tests
