-- ===== src/WorkerPool/Run.antt =====
-- crates/lean-rs-worker-parent/src/pool.rs: the commands of a `LeanWorkerSessionLease`.
pub mod Called
pub mod Validity
use lean_rs.Common.{
  ℕ, String, Bool, true, false, Option, none, some, List, [], ◌∷◌, ◌==◌, sat_inc, if◌then◌else◌,
}
use lean_rs.Common.Options
use lean_rs.Common.Equality.{◌=?◌, string_eq}
use lean_rs.Supervisor.Types.{
  explicit, Text, lit, num, LeanWorkerError, worker, cancelled, timeout, restart_limit_exceeded,
  child_exited, child_panic_or_abort, capability_metadata_mismatch, lease_invalidated, Result, ok,
  err,
}
use lean_rs.Supervisor.Worker.{LeanWorker, Method, then_call}
use lean_rs.Supervisor.Restart.{RestartEnv, restart_with_reason}
use lean_rs.Supervisor.Reuse.{OpenEnv, open_worker_session}
use lean_rs.Supervisor.Measure.{record_command_timing, set_request_timeout}
use lean_rs.WorkerPool.Entry.{PoolEntry, with_worker, PolicyEnv, enforce_policy}
use lean_rs.WorkerPool.Lease.{LeanWorkerSessionLease, worker_generation}

unfoldable pub invalidates_lease : LeanWorkerError → Bool
invalidates_lease (cancelled _ _) = true
invalidates_lease (timeout _ _ _) = true
invalidates_lease (restart_limit_exceeded _ _) = true
invalidates_lease (child_exited _) = true
invalidates_lease (child_panic_or_abort _) = true
invalidates_lease (capability_metadata_mismatch _) = true
invalidates_lease _ = false

unfoldable pub invalidation_reason : LeanWorkerError → Text
invalidation_reason (cancelled operation _) = lit "cancelled during " ∷ lit operation ∷ []
invalidation_reason (timeout operation _ _) = lit "timed out during " ∷ lit operation ∷ []
invalidation_reason (restart_limit_exceeded _ _) = lit "worker restart limit exceeded" ∷ []
invalidation_reason (child_exited _) = lit "worker child exited" ∷ []
invalidation_reason (child_panic_or_abort _) = lit "worker child exited fatally" ∷ []
invalidation_reason (capability_metadata_mismatch export) =
    lit "capability metadata mismatch from " ∷ lit export ∷ []
invalidation_reason _ = lit "worker lifecycle transition" ∷ []

unfoldable pub worker_session_missing : LeanWorkerError → Bool
worker_session_missing (worker code _) = code =? "lean_rs.worker.session_missing"
worker_session_missing _ = false

unfoldable pub invalidate : Text → LeanWorkerSessionLease → LeanWorkerSessionLease
invalidate reason l = record l { valid = false; invalidation_reason = some reason }

unfoldable pub invalid_lease_reason : LeanWorkerSessionLease → Text
invalid_lease_reason l =
    Options.get_or l.invalidation_reason
      (lit "lease was invalidated by a worker lifecycle transition" ∷ [])

generation_changed : ℕ → ℕ → Text
generation_changed admitted current =
    lit "worker generation changed from " ∷ num admitted ∷ lit " to " ∷ num current ∷ []

-- `LeanWorkerSessionLease::ensure_valid`: the error, if there is one.
unfoldable pub ensure_valid : LeanWorkerSessionLease → Option LeanWorkerError
unfolding invalid_lease_reason generation_changed worker_generation
ensure_valid l =
    if l.valid
    then (if worker_generation l.entry == l.admitted_generation
        then none
        else some (
            lease_invalidated
              (generation_changed l.admitted_generation (worker_generation l.entry))))
    else some (lease_invalidated (invalid_lease_reason l))

with_entry : PoolEntry → LeanWorkerSessionLease → LeanWorkerSessionLease
with_entry e l = record l { entry = e }

enforced :
    LeanWorkerSessionLease
    → Result (Option Text) × PoolEntry
    → Result (Unit {0}) × LeanWorkerSessionLease
unfolding with_entry invalidate
enforced l (ok none, e) = (ok tt, with_entry e l)
enforced l (ok (some reason), e) =
    (err (lease_invalidated reason), invalidate reason (with_entry e l))
enforced l (err x, e) = (err x, with_entry e l)

-- `LeanWorkerSessionLease::enforce_policy_before_request`.
unfoldable pub enforce_policy_before_request :
    PolicyEnv → LeanWorkerSessionLease → Result (Unit {0}) × LeanWorkerSessionLease
unfolding enforced
enforce_policy_before_request env l = enforced l (enforce_policy l.config env l.entry)

reset_timeout : Option ℕ → PoolEntry → PoolEntry
unfolding set_request_timeout with_worker
reset_timeout none e = e
reset_timeout (some t) e =
    with_worker (set_request_timeout e.base_request_timeout e.capability.worker) e

settled_result {ℓ} :
    {A : Type ℓ} → Result A → LeanWorkerSessionLease → Result A × LeanWorkerSessionLease
unfolding invalidate invalidates_lease invalidation_reason
settled_result (ok a) l = (ok a, l)
settled_result (err x) l =
    (err x, if invalidates_lease x then invalidate (invalidation_reason x) l else l)

-- `LeanWorkerSessionLease::map_lifecycle_result`, at the clock `now`.
unfoldable pub map_lifecycle_result {ℓ} :
    {A : Type ℓ} → ℕ → Result A → LeanWorkerSessionLease → Result A × LeanWorkerSessionLease
unfolding settled_result reset_timeout
map_lifecycle_result now r l = settled_result r (record l {
  entry = record (reset_timeout l.request_timeout_override l.entry) { last_activity = now };
})

-- What one run observes: the policy check, the opening of a missing session, how long the command
-- took, and the clock after it.
pub record RunEnv : Type 0 where
  pub policy : PolicyEnv
  pub reopen : OpenEnv
  pub elapsed : ℕ
  pub finished : ℕ

override_timeout : Option ℕ → LeanWorker → LeanWorker
override_timeout none w = w
override_timeout (some t) w = set_request_timeout t w

module _ {ℓ} {A : Type ℓ} (command : Method A) where
  -- The command on the session of the worker, with the lease's timeout.
  unfoldable pub on_session : Option ℕ → Method A
  unfolding override_timeout
  on_session limit w = command (override_timeout limit w)

  pub retry : Option ℕ → RunEnv → PoolEntry → Result A × LeanWorker → Result A × LeanWorker
  unfolding on_session worker_session_missing
  retry limit env e (ok a, w) = (ok a, w)
  retry limit env e (err x, w) =
      if worker_session_missing x
      then then_call (λ _. on_session limit)
          (open_worker_session e.capability.session_config env.reopen w)
      else (err x, w)

  finish_run :
      RunEnv → LeanWorkerSessionLease → Result A × LeanWorker → Result A × LeanWorkerSessionLease
  unfolding with_entry with_worker map_lifecycle_result
  finish_run env l (r, w) =
      let e =
        with_worker (record_command_timing (l.entry.commands_since_open == 0) env.elapsed w)
          l.entry in
      map_lifecycle_result env.finished r
        (with_entry (record e { commands_since_open = sat_inc e.commands_since_open }) l)

  run_enforced :
      RunEnv → Result (Unit {0}) × LeanWorkerSessionLease → Result A × LeanWorkerSessionLease
  unfolding finish_run retry on_session
  run_enforced env (err x, l) = (err x, l)
  run_enforced env (ok _, l) = finish_run env l (
      retry l.request_timeout_override env l.entry
        (on_session l.request_timeout_override l.entry.capability.worker))

  run_checked :
      RunEnv → Option LeanWorkerError → LeanWorkerSessionLease → Result A × LeanWorkerSessionLease
  unfolding run_enforced
  run_checked env (some x) l = (err x, l)
  run_checked env none l = run_enforced env (enforce_policy_before_request env.policy l)

  -- `LeanWorkerSessionLease::run_with_current_session`.
  unfoldable pub run_with_current_session :
      RunEnv → LeanWorkerSessionLease → Result A × LeanWorkerSessionLease
  unfolding run_checked
  run_with_current_session env l = run_checked env (ensure_valid l) l

cycled :
    LeanWorkerSessionLease
    → Result (Unit {0}) × LeanWorker
    → Result (Unit {0}) × LeanWorkerSessionLease
unfolding with_entry with_worker invalidate
cycled l (ok _, w) =
    (ok tt, invalidate (lit "explicit worker cycle" ∷ []) (with_entry (with_worker w l.entry) l))
cycled l (err x, w) = (err x, with_entry (with_worker w l.entry) l)

-- `LeanWorkerSessionLease::cycle`.
unfoldable pub cycle :
    RestartEnv → LeanWorkerSessionLease → Result (Unit {0}) × LeanWorkerSessionLease
unfolding cycled
cycle env l = elim (ensure_valid l) [
  | some x ↦ (err x, l)
  | none ↦ cycled l (restart_with_reason explicit env l.entry.capability.worker)
]

-- `LeanWorkerSessionLease::set_request_timeout`.
unfoldable pub set_lease_timeout :
    ℕ → LeanWorkerSessionLease → Result (Unit {0}) × LeanWorkerSessionLease
set_lease_timeout limit l = elim (ensure_valid l) [
  | some x ↦ (err x, l)
  | none ↦ (ok tt, record l { request_timeout_override = some limit })
]
