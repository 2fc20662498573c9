-- ===== src/WorkerPool/Run/Called.antt =====
-- What a command on a lease of crates/lean-rs-worker-parent/src/pool.rs comes to: the call of the
-- session in `run_with_current_session`, and the second one after a new session.
use lean_rs.Common.{◌≡◌, refl, ap, inl, inr, true, false, Bool-cases}
use lean_rs.Supervisor.Types.{LeanWorkerError, Result, ok, err}
use lean_rs.Supervisor.Worker.{LeanWorker, Method, then_call}
use lean_rs.Supervisor.Reuse.{open_worker_session}
use lean_rs.WorkerPool.Entry.{PoolEntry}
use lean_rs.WorkerPool.Lease.{LeanWorkerSessionLease}
use lean_rs.WorkerPool.Run.{worker_session_missing, RunEnv, on_session, retry}

module _ {ℓ} {A : Type ℓ} (command : Method A) (env : RunEnv) where
  -- The command on the worker of an entry, with the lease's timeout.
  abbrev pub attempt : LeanWorkerSessionLease → PoolEntry → Result A × LeanWorker
  attempt l e = on_session command l.request_timeout_override e.capability.worker

  -- The child did not say that it has no session.
  abbrev pub HasSession : Result A → Type 0
  HasSession (ok a) = Unit {0}
  HasSession (err x) = worker_session_missing x ≡ false

  -- What the command comes to: its first result, or, when the child had no session, the failure to
  -- open one, or the result of the command after that.
  pub data Called (l : LeanWorkerSessionLease) (e : PoolEntry) : Result A → Type ℓ where
    once : {x : Result A} → (attempt l e).0 ≡ x → HasSession x → Called l e x
    not_reopened :
        (y x : LeanWorkerError) (v : LeanWorker)
        → (attempt l e).0 ≡ err y
        → worker_session_missing y ≡ true
        → open_worker_session e.capability.session_config env.reopen (attempt l e).1 ≡ (err x, v)
        → Called l e (err x)
    twice :
        {x : Result A} (y : LeanWorkerError) (v : LeanWorker)
        → (attempt l e).0 ≡ err y
        → worker_session_missing y ≡ true
        → open_worker_session e.capability.session_config env.reopen (attempt l e).1 ≡ (ok tt, v)
        → (on_session command l.request_timeout_override v).0 ≡ x
        → Called l e x

  then_call-Called :
      (l : LeanWorkerSessionLease) (e : PoolEntry) (y : LeanWorkerError)
      (o : Result (Unit {0}) × LeanWorker)
      → (attempt l e).0 ≡ err y
      → worker_session_missing y ≡ true
      → open_worker_session e.capability.session_config env.reopen (attempt l e).1 ≡ o
      → Called l e (then_call (λ _. on_session command l.request_timeout_override) o).0
  then_call-Called l e y (ok _, v) f m q = twice y v f m q refl
  then_call-Called l e y (err x, v) f m q = not_reopened y x v f m q

  pub retry-Called :
      (l : LeanWorkerSessionLease) (e : PoolEntry) (p : Result A × LeanWorker)
      → attempt l e ≡ p
      → Called l e (retry command l.request_timeout_override env e p).0
  unfolding retry
  retry-Called l e (ok a, w) q = once (ap (λ (p : Result A × LeanWorker). p.0) q) tt
  retry-Called l e (err y, w) q = elim (Bool-cases (worker_session_missing y)) [
    | inl m ↦ rw m (
        then_call-Called l e y _ (ap (λ (p : Result A × LeanWorker). p.0) q) m (
          ap
            (λ (p : Result A × LeanWorker).
              open_worker_session e.capability.session_config env.reopen p.1)
            q))
    | inr m ↦ rw m (once (ap (λ (p : Result A × LeanWorker). p.0) q) m)
  ]
