-- ===== src/Jobs/Sweep.antt =====
-- export/sweep.py: the periodic clean-up of the table.
use databridge.Base.{ℕ, ◌+◌, Bool, false, not, ◌&&◌, ◌||◌, none, some, String, ltb}
use databridge.Base.Lists.{keep_if}
use databridge.Jobs.{
  Instant, ExportJob, JobTable, failed, is_running, is_failed, is_completed, minutes, days,
}
use databridge.Jobs.Store.{update_where}

-- `last_heartbeat_at < NOW() - timeout`, which is not true of NULL
abbrev is_stale : ℕ → Instant → ExportJob → Bool
is_stale timeout_minutes now row = is_running row.status && elim row.last_heartbeat_at [
  | none ↦ false
  | some at ↦ ltb (at + minutes timeout_minutes) now
]

-- `mark_stale_jobs`; the message is the text that names the timeout
unfoldable pub mark_stale_jobs : ℕ → String → Instant → JobTable → JobTable
mark_stale_jobs timeout_minutes message now rows =
    update_where (is_stale timeout_minutes now)
      (λ row. record row { status = failed; error_message = some message; completed_at = some now })
      rows

abbrev is_old : ℕ → Instant → ExportJob → Bool
is_old ttl_days now row =
    (is_completed row.status || is_failed row.status)
    && elim row.completed_at [ none ↦ false | some at ↦ ltb (at + days ttl_days) now ]

-- `ttl_purge_jobs`
unfoldable pub ttl_purge_jobs : ℕ → Instant → JobTable → JobTable
ttl_purge_jobs ttl_days now rows = keep_if (λ row. not (is_old ttl_days now row)) rows

-- One round of `run_sweep_loop`.
unfoldable pub sweep : ℕ → ℕ → String → Instant → JobTable → JobTable
sweep timeout_minutes ttl_days message now rows =
    ttl_purge_jobs ttl_days now (mark_stale_jobs timeout_minutes message now rows)
