-- ===== src/WorkerPool/Lease/Keys.antt =====
-- The key of a warm entry that is prepared for a lease in crates/lean-rs-worker-parent/src/pool.rs.
use lean_rs.Common.{◌≡◌, refl, ◌∙◌, Option}
use lean_rs.Supervisor.Types.{Text, Result, ok, err}
use lean_rs.Supervisor.Worker.{LeanWorker, LeanWorkerStatus, running, exited, status}
use lean_rs.WorkerPool.Config.{session_key_eq, LeanWorkerPoolConfig}
use lean_rs.WorkerPool.Lease.{
  AcquireEnv, reopen_entry, running_entry, ensure_entry_running, assign_entry, assigned,
}
use lean_rs.WorkerPool.Entry.{LeanWorkerCapability, PoolEntry, with_worker, enforce_policy}
use lean_rs.WorkerPool.Entry.Keys.{enforce_policy-key}

pub ensure_entry_running-key :
    (env : AcquireEnv) (e : PoolEntry) → (ensure_entry_running env e).1.key ≡ e.key
unfolding ensure_entry_running running_entry with_worker
ensure_entry_running-key env e = go (status env.poll e.capability.worker)
  where
    reopened :
        (r : Result LeanWorkerCapability) (x : PoolEntry)
        → (reopen_entry r env.reopened_at x).1.key ≡ x.key
    reopened (ok c) x = refl
    reopened (err y) x = refl

    go : (r : Result LeanWorkerStatus × LeanWorker) → (running_entry env e r).1.key ≡ e.key
    go (ok running, w) = refl
    go (ok (exited x), w) = reopened env.reopened (with_worker w e)
    go (err x, w) = refl

pub assign_entry-key :
    (config : LeanWorkerPoolConfig) (env : AcquireEnv) (r : Result (Unit {0}) × PoolEntry)
    → (assign_entry config env r).1.key ≡ r.1.key
unfolding assign_entry
assign_entry-key config env (err x, e) = refl
assign_entry-key config env (ok _, e) =
    go (enforce_policy config env.policy e) ∙ enforce_policy-key config env.policy e
  where
    go : (r : Result (Option Text) × PoolEntry) → (assigned r).1.key ≡ r.1.key
    go (ok a, x) = refl
    go (err y, x) = refl
