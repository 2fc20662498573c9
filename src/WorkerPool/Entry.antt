-- ===== src/WorkerPool/Entry.antt =====
-- crates/lean-rs-worker-parent/src/pool.rs: `PoolEntry`, one worker of the pool, and the policy that
-- cycles it. A capability is its worker and its session: the capability's methods forward to the
-- worker.
pub mod Keys
use lean_rs.Common.{
  ℕ, ◌-◌, String, Bool, Option, none, some, List, [], ◌∷◌, leb, sat_inc, if◌then◌else◌,
}
use lean_rs.Supervisor.Types.{
  LeanWorkerRestartReason, rss_ceiling, lit, num, duration_debug, Text, LeanWorkerError, Result, ok,
  err,
}
use lean_rs.Supervisor.Types
use lean_rs.Supervisor.Session.{LeanWorkerSessionConfig}
use lean_rs.Supervisor.Worker.{LeanWorker}
use lean_rs.Supervisor.Restart.{RestartEnv, restart_with_reason}
use lean_rs.Supervisor.Measure.{rss_kib}
use lean_rs.WorkerPool.Config.{LeanWorkerSessionKey, LeanWorkerPoolConfig}

pub record LeanWorkerCapability : Type 0 where
  pub worker : LeanWorker
  pub session_config : LeanWorkerSessionConfig

-- What the pool reads of a `LeanWorkerCapabilityBuilder`: `session_key` and `pool_request_timeout`.
pub record LeanWorkerCapabilityBuilder : Type 0 where
  pub session_key : LeanWorkerSessionKey
  pub pool_request_timeout : ℕ

pub record PoolEntry : Type 0 where
  pub key : LeanWorkerSessionKey
  pub builder : LeanWorkerCapabilityBuilder
  pub capability : LeanWorkerCapability
  pub base_request_timeout : ℕ
  pub last_rss_kib : Option ℕ
  pub rss_samples_unavailable : ℕ
  pub last_activity : ℕ
  pub last_restart_reason : Option LeanWorkerRestartReason
  pub policy_restarts : ℕ
  pub active_leases : ℕ
  pub commands_since_open : ℕ

-- The entry with another state of its worker.
unfoldable pub with_worker : LeanWorker → PoolEntry → PoolEntry
with_worker w e = record e { capability = record e.capability { worker = w } }

note_entry_rss : Option ℕ → PoolEntry → Option ℕ × PoolEntry
note_entry_rss (some value) e = (some value, record e { last_rss_kib = some value })
note_entry_rss none e =
    (none, record e { rss_samples_unavailable = sat_inc e.rss_samples_unavailable })

-- `PoolEntry::sample_rss`.
unfoldable pub sample_rss : Option ℕ → PoolEntry → Option ℕ × PoolEntry
unfolding note_entry_rss with_worker
sample_rss sample e =
    let (value, w) = rss_kib sample e.capability.worker in note_entry_rss value (with_worker w e)

-- What one enforcement observes: the RSS sample, the clock at the idle check, the replacement and the
-- clock after it.
pub record PolicyEnv : Type 0 where
  pub sample : Option ℕ
  pub now : ℕ
  pub restart : RestartEnv
  pub cycled : ℕ

cycled_entry :
    LeanWorkerRestartReason
    → ℕ
    → PoolEntry
    → Result (Unit {0}) × LeanWorker
    → Result (Unit {0}) × PoolEntry
unfolding with_worker
cycled_entry reason now e (err x, w) = (err x, with_worker w e)
cycled_entry reason now e (ok _, w) = (
  ok tt,
  record (with_worker w e) {
    last_restart_reason = some reason;
    last_activity = now;
    last_rss_kib = none;
    policy_restarts = sat_inc e.policy_restarts;
    commands_since_open = 0;
  },
)

-- `PoolEntry::cycle_for_policy`.
unfoldable pub cycle_for_policy :
    LeanWorkerRestartReason → PolicyEnv → PoolEntry → Result (Unit {0}) × PoolEntry
unfolding cycled_entry
cycle_for_policy reason env e =
    cycled_entry reason env.cycled e (restart_with_reason reason env.restart e.capability.worker)

-- The reason to cycle for memory, and the entry after the sample, which a ceiling asks for.
ceiling_reason : ℕ → Option ℕ × PoolEntry → Option LeanWorkerRestartReason × PoolEntry
ceiling_reason limit (none, e) = (none, e)
ceiling_reason limit (some current, e) = (
  if leb limit current
      then some (rss_ceiling current limit e.capability.worker.stats.last_import_stats)
      else none,
  e,
)

over_ceiling : Option ℕ → Option ℕ → PoolEntry → Option LeanWorkerRestartReason × PoolEntry
unfolding ceiling_reason
over_ceiling none sample e = (none, e)
over_ceiling (some limit) sample e = ceiling_reason limit (sample_rss sample e)

idle_too_long : Option ℕ → ℕ → Option LeanWorkerRestartReason
idle_too_long none idle_for = none
idle_too_long (some limit) idle_for =
    if leb limit idle_for then some (Types.LeanWorkerRestartReason.idle idle_for limit) else none

-- The message of a policy cycle; only the two policies give a reason.
cycle_message : LeanWorkerRestartReason → Text
cycle_message (rss_ceiling current limit _) =
    lit "memory policy cycled worker at "
    ∷ num current
    ∷ lit " KiB RSS with limit "
    ∷ num limit
    ∷ lit " KiB"
    ∷ []
cycle_message (Types.LeanWorkerRestartReason.idle idle_for limit) =
    lit "idle policy cycled worker after "
    ∷ duration_debug idle_for
    ∷ lit " idle with limit "
    ∷ duration_debug limit
    ∷ []
cycle_message _ = []

cycle_told :
    LeanWorkerRestartReason → Result (Unit {0}) × PoolEntry → Result (Option Text) × PoolEntry
unfolding cycle_message
cycle_told reason (ok _, e) = (ok (some (cycle_message reason)), e)
cycle_told reason (err x, e) = (err x, e)

enforce_idle :
    Option LeanWorkerRestartReason → PolicyEnv → PoolEntry → Result (Option Text) × PoolEntry
unfolding cycle_told
enforce_idle none env e = (ok none, e)
enforce_idle (some reason) env e = cycle_told reason (cycle_for_policy reason env e)

enforce_memory :
    LeanWorkerPoolConfig
    → PolicyEnv
    → Option LeanWorkerRestartReason × PoolEntry
    → Result (Option Text) × PoolEntry
unfolding cycle_told enforce_idle idle_too_long
enforce_memory config env (some reason, e) = cycle_told reason (cycle_for_policy reason env e)
enforce_memory config env (none, e) =
    enforce_idle (idle_too_long config.idle_cycle_after (env.now - e.last_activity)) env e

-- `PoolEntry::enforce_policy`.
unfoldable pub enforce_policy :
    LeanWorkerPoolConfig → PolicyEnv → PoolEntry → Result (Option Text) × PoolEntry
unfolding enforce_memory over_ceiling
enforce_policy config env e =
    enforce_memory config env (over_ceiling config.per_worker_rss_ceiling_kib env.sample e)
