-- ===== src/Demo/Dispatch.antt =====
-- db/demo_pool.py: `_dispatch`, which reads a statement and calls what stands for it.
use databridge.Base.{List, String, str_eq, if◌then◌else◌}
use databridge.Jobs.{Instant}
use databridge.Demo.{Cell, Records, DemoPool, Mode, Answer, nothing, count, raises}
use databridge.Demo.Sql.{normalise, starts_with, contains}
use databridge.Demo.Jobs.{job_insert, job_select}
use databridge.Demo.Jobs.Update.{job_update}
use databridge.Demo.Connections.{conn_insert, conn_select, conn_update, conn_delete}

abbrev with_connections : DemoPool → Records × Answer → DemoPool × Answer
with_connections pool (connections, a) = (record pool { connections = connections }, a)

abbrev pub with_jobs : DemoPool → Records × Answer → DemoPool × Answer
with_jobs pool (jobs, a) = (record pool { jobs = jobs }, a)

-- The statement's branch, by its normal form.
unfoldable pub dispatch_normal :
    String → String → List Cell → Mode → String → Instant → DemoPool → DemoPool × Answer
dispatch_normal sql s args mode id now pool =
    if str_eq s "select 1"
    then (pool, count 1)
    else if contains "pg_advisory_xact_lock" s
    then (pool, nothing)
    else if starts_with "insert into connections" s
    then with_connections pool (conn_insert id now args pool.connections)
    else if starts_with "delete from connections" s
    then with_connections pool (conn_delete args pool.connections)
    else if starts_with "update connections" s
    then with_connections pool (conn_update sql s args now pool.connections)
    else if contains "from connections" s
    then (pool, conn_select s args pool.connections)
    else if contains "from sync_jobs" s
    then (pool, count 0)
    else if starts_with "insert into export_jobs" s
    then with_jobs pool (job_insert id now args pool.jobs)
    else if contains "from export_jobs" s
    then (pool, job_select s args mode pool.jobs)
    else if starts_with "update export_jobs" s
    then with_jobs pool (job_update s args pool.jobs)
    else (pool, raises "NotImplementedError")

-- `_dispatch`: the id and the instant are what uuid4() and _now() return, if it calls them
unfoldable pub dispatch :
    String → List Cell → Mode → String → Instant → DemoPool → DemoPool × Answer
dispatch sql args mode id now pool = dispatch_normal sql (normalise sql) args mode id now pool
