-- ===== src/WorkerPool/Lease.antt =====
-- crates/lean-rs-worker-parent/src/pool.rs: `acquire_lease` and `LeanWorkerSessionLease`. A lease
-- borrows its entry exclusively: here it carries the entry, and gives it back when it is dropped.
pub mod Keys
pub mod Sound
use lean_rs.Common.{
  ℕ, zero, suc, ◌-◌, String, Bool, true, false, Option, none, some, List, [], ◌∷◌, ◌++◌, length,
  get_elem?, ◌==◌, sat_inc, if◌then◌else◌,
}
use lean_rs.Common.Options
use lean_rs.Common.Equality.{◌=?◌}
use lean_rs.Supervisor.Types.{
  explicit, Text, lit, num, LeanWorkerError, LeanWorkerExit, protocol, worker, cancelled, timeout,
  restart_limit_exceeded, child_exited, child_panic_or_abort, capability_metadata_mismatch,
  lease_invalidated, Result, ok, err,
}
use lean_rs.Supervisor.Worker.{
  LeanWorker, Method, LeanWorkerStatus, running, exited, Poll, status, then_call,
}
use lean_rs.Supervisor.Restart.{RestartEnv, restart_with_reason}
use lean_rs.Supervisor.Reuse.{OpenEnv, open_worker_session}
use lean_rs.Supervisor.Measure.{lifecycle_snapshot, record_command_timing, set_request_timeout}
use lean_rs.WorkerPool.Config.{LeanWorkerPoolConfig}
use lean_rs.WorkerPool.Entry.{
  LeanWorkerCapability, LeanWorkerCapabilityBuilder, PoolEntry, with_worker, sample_rss, PolicyEnv,
  enforce_policy,
}
use lean_rs.WorkerPool.State.{
  LeanWorkerPool, PoolAdmissionDecision, reuse_warm_entry, open_cold_entry,
  total_known_child_rss_kib,
}
use lean_rs.WorkerPool.Pool.{admit_lease}

pub record LeanWorkerSessionLease : Type 0 where
  pub entry : PoolEntry
  pub config : LeanWorkerPoolConfig
  pub valid : Bool
  pub invalidation_reason : Option Text
  pub request_timeout_override : Option ℕ
  pub admitted_generation : ℕ
  pub released : Bool

-- The generation that `lifecycle_snapshot` reports.
unfoldable pub worker_generation : PoolEntry → ℕ
unfolding lifecycle_snapshot
worker_generation e = (lifecycle_snapshot e.capability.worker).worker_generation

unfoldable pub grant_lease : LeanWorkerPoolConfig → PoolEntry → LeanWorkerSessionLease
unfolding worker_generation
grant_lease config e = record {
  entry = record e { active_leases = sat_inc e.active_leases };
  config = config;
  valid = true;
  invalidation_reason = none;
  request_timeout_override = none;
  admitted_generation = worker_generation e;
  released = false;
}

-- What one acquisition observes: the RSS samples of the admission, the child of a warm entry, the
-- capability opened in a dead one's place and the clock then, the policy check, the cold open with
-- the clock after it, and the sample of the new child.
pub record AcquireEnv : Type 0 where
  pub samples : ℕ → Option ℕ
  pub poll : Poll
  pub reopened : Result LeanWorkerCapability
  pub reopened_at : ℕ
  pub policy : PolicyEnv
  pub opened : Result LeanWorkerCapability
  pub opened_at : ℕ
  pub sample : Option ℕ

reopen_entry : Result LeanWorkerCapability → ℕ → PoolEntry → Result (Unit {0}) × PoolEntry
reopen_entry (ok c) now e = (ok tt, record e { capability = c; last_activity = now })
reopen_entry (err x) now e = (err x, e)

running_entry :
    AcquireEnv → PoolEntry → Result LeanWorkerStatus × LeanWorker → Result (Unit {0}) × PoolEntry
unfolding reopen_entry
running_entry env e (ok running, w) = (ok tt, with_worker w e)
running_entry env e (ok (exited _), w) = reopen_entry env.reopened env.reopened_at (with_worker w e)
running_entry env e (err x, w) = (err x, with_worker w e)

-- `LeanWorkerPool::ensure_entry_running`, on the entry.
unfoldable pub ensure_entry_running : AcquireEnv → PoolEntry → Result (Unit {0}) × PoolEntry
unfolding running_entry
ensure_entry_running env e = running_entry env e (status env.poll e.capability.worker)

assigned : Result (Option Text) × PoolEntry → Result (Unit {0}) × PoolEntry
assigned (ok _, e) = (ok tt, e)
assigned (err x, e) = (err x, e)

-- `ensure_entry_running` and then `enforce_entry_policy_before_assignment`.
unfoldable pub assign_entry :
    LeanWorkerPoolConfig
    → AcquireEnv
    → Result (Unit {0}) × PoolEntry
    → Result (Unit {0}) × PoolEntry
unfolding assigned
assign_entry config env (ok _, e) = assigned (enforce_policy config env.policy e)
assign_entry config env (err x, e) = (err x, e)

unfoldable pub set_entry : List PoolEntry → ℕ → PoolEntry → List PoolEntry
set_entry [] i e = []
set_entry (x ∷ xs) zero e = e ∷ xs
set_entry (x ∷ xs) (suc i) e = x ∷ set_entry xs i e

grant :
    ℕ
    → LeanWorkerPool
    → Result (Unit {0}) × PoolEntry
    → Result (ℕ × LeanWorkerSessionLease) × LeanWorkerPool
unfolding grant_lease set_entry
grant i p (err x, e) = (err x, record p { entries = set_entry p.entries i e })
grant i p (ok _, e) =
    let lease = grant_lease p.config e in
    (ok (i, lease), record p { entries = set_entry p.entries i lease.entry })

acquire_warm :
    AcquireEnv
    → ℕ
    → Option PoolEntry
    → LeanWorkerPool
    → Result (ℕ × LeanWorkerSessionLease) × LeanWorkerPool
unfolding grant ensure_entry_running assign_entry
acquire_warm env i none p =
    (err (protocol (lit "worker pool entry disappeared during liveness check" ∷ [])), p)
acquire_warm env i (some e) p = grant i p (assign_entry p.config env (ensure_entry_running env e))

fresh_entry : LeanWorkerCapabilityBuilder → AcquireEnv → LeanWorkerCapability → PoolEntry
fresh_entry builder env c = record {
  key = builder.session_key;
  builder = builder;
  capability = c;
  base_request_timeout = builder.pool_request_timeout;
  last_rss_kib = none;
  rss_samples_unavailable = 0;
  last_activity = env.opened_at;
  last_restart_reason = none;
  policy_restarts = 0;
  active_leases = 0;
  commands_since_open = 0;
}

acquire_cold :
    LeanWorkerCapabilityBuilder
    → AcquireEnv
    → Result LeanWorkerCapability
    → LeanWorkerPool
    → Result (ℕ × LeanWorkerSessionLease) × LeanWorkerPool
unfolding fresh_entry grant_lease
acquire_cold builder env (err x) p =
    (err x, record p { cold_opens_in_progress = p.cold_opens_in_progress - 1 })
acquire_cold builder env (ok c) p =
    let e = (sample_rss env.sample (fresh_entry builder env c)).1 in
    let lease = grant_lease p.config e in
    (
      ok (length p.entries, lease),
      record p {
        cold_opens_in_progress = p.cold_opens_in_progress - 1;
        entries = p.entries ++ lease.entry ∷ [];
        rss_after_open_kib = total_known_child_rss_kib (p.entries ++ e ∷ []);
      },
    )

acquire_admitted :
    LeanWorkerCapabilityBuilder
    → AcquireEnv
    → Result PoolAdmissionDecision × LeanWorkerPool
    → Result (ℕ × LeanWorkerSessionLease) × LeanWorkerPool
unfolding acquire_warm acquire_cold
acquire_admitted builder env (err x, p) = (err x, p)
acquire_admitted builder env (ok (reuse_warm_entry i), p) =
    acquire_warm env i (get_elem? p.entries i) p
acquire_admitted builder env (ok open_cold_entry, p) = acquire_cold builder env env.opened p

-- `LeanWorkerPool::acquire_lease`; the lease comes with the position of the entry that it borrows.
unfoldable pub acquire_lease :
    LeanWorkerCapabilityBuilder
    → AcquireEnv
    → LeanWorkerPool
    → Result (ℕ × LeanWorkerSessionLease) × LeanWorkerPool
unfolding acquire_admitted
acquire_lease builder env p =
    acquire_admitted builder env (admit_lease builder.session_key env.samples p)

-- `LeanWorkerSessionLease::release_once`.
unfoldable pub release_once : LeanWorkerSessionLease → LeanWorkerSessionLease
release_once l = if l.released then l else record l {
  entry = record l.entry { active_leases = l.entry.active_leases - 1 };
  released = true;
}

-- `Drop::drop`: the entry that the lease held goes back to its place.
unfoldable pub drop_lease : ℕ × LeanWorkerSessionLease → LeanWorkerPool → LeanWorkerPool
unfolding release_once set_entry
drop_lease (i, l) p = record p { entries = set_entry p.entries i (release_once l).entry }
