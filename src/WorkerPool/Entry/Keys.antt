-- ===== src/WorkerPool/Entry/Keys.antt =====
-- The key of a `PoolEntry` of crates/lean-rs-worker-parent/src/pool.rs across its operations.
use lean_rs.Common.{ℕ, ◌≡◌, refl, ◌∙◌, Option, none, some}
use lean_rs.Supervisor.Types.{LeanWorkerRestartReason, Result, ok, err}
use lean_rs.Supervisor.Worker.{LeanWorker}
use lean_rs.Supervisor.Restart.{restart_with_reason}
use lean_rs.WorkerPool.Config.{session_key_eq, LeanWorkerPoolConfig}
use lean_rs.WorkerPool.Entry.{
  PoolEntry, with_worker, note_entry_rss, sample_rss, PolicyEnv, cycled_entry, cycle_told,
  ceiling_reason, over_ceiling, cycle_for_policy, enforce_idle, enforce_memory, enforce_policy,
}

note_entry_rss-key : (value : Option ℕ) (e : PoolEntry) → (note_entry_rss value e).1.key ≡ e.key
unfolding note_entry_rss
note_entry_rss-key none e = refl
note_entry_rss-key (some v) e = refl

pub sample_rss-key : (sample : Option ℕ) (e : PoolEntry) → (sample_rss sample e).1.key ≡ e.key
unfolding sample_rss with_worker
sample_rss-key sample e = note_entry_rss-key _ _

cycled_entry-key :
    (reason : LeanWorkerRestartReason) (now : ℕ) (e : PoolEntry)
    (r : Result (Unit {0}) × LeanWorker)
    → (cycled_entry reason now e r).1.key ≡ e.key
unfolding cycled_entry with_worker
cycled_entry-key reason now e (ok _, w) = refl
cycled_entry-key reason now e (err x, w) = refl

cycle_told-key :
    (reason : LeanWorkerRestartReason) (r : Result (Unit {0}) × PoolEntry)
    → (cycle_told reason r).1.key ≡ r.1.key
unfolding cycle_told
cycle_told-key reason (ok _, e) = refl
cycle_told-key reason (err x, e) = refl

told-key :
    (reason : LeanWorkerRestartReason) (env : PolicyEnv) (e : PoolEntry)
    → (cycle_told reason (cycle_for_policy reason env e)).1.key ≡ e.key
unfolding cycle_for_policy
told-key reason env e =
    cycle_told-key reason (cycle_for_policy reason env e)
    ∙ cycled_entry-key reason env.cycled e
        (restart_with_reason reason env.restart e.capability.worker)

enforce_idle-key :
    (reason : Option LeanWorkerRestartReason) (env : PolicyEnv) (e : PoolEntry)
    → (enforce_idle reason env e).1.key ≡ e.key
unfolding enforce_idle cycle_for_policy
enforce_idle-key none env e = refl
enforce_idle-key (some reason) env e = told-key reason env e

over_ceiling-key :
    (limit sample : Option ℕ) (e : PoolEntry) → (over_ceiling limit sample e).1.key ≡ e.key
unfolding over_ceiling
over_ceiling-key none sample e = refl
over_ceiling-key (some limit) sample e = go (sample_rss sample e) ∙ sample_rss-key sample e
  where
    go : (r : Option ℕ × PoolEntry) → (ceiling_reason limit r).1.key ≡ r.1.key
    go (none, x) = refl
    go (some v, x) = refl

pub enforce_policy-key :
    (config : LeanWorkerPoolConfig) (env : PolicyEnv) (e : PoolEntry)
    → (enforce_policy config env e).1.key ≡ e.key
unfolding enforce_policy enforce_memory cycle_for_policy
enforce_policy-key config env e =
    go (over_ceiling config.per_worker_rss_ceiling_kib env.sample e)
    ∙ over_ceiling-key config.per_worker_rss_ceiling_kib env.sample e
  where
    go :
        (r : Option LeanWorkerRestartReason × PoolEntry)
        → (enforce_memory config env r).1.key ≡ r.1.key
    go (none, x) = enforce_idle-key _ env x
    go (some reason, x) = told-key reason env x
