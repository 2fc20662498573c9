-- ===== src/WorkerPool/Run/Validity.antt =====
-- When a lease of crates/lean-rs-worker-parent/src/pool.rs runs its command, and what a run leaves of it.
use lean_rs.Common.{
  ℕ, ◌≡◌, refl, sym, ◌∙◌, ◌≢◌, ◌⊎◌, inl, inr, true, false, Option, none, some, arith, ◌==◌, ==_iff,
  Bool-cases,
}
use lean_rs.Supervisor.Types.{
  Text, LeanWorkerError, cancelled, timeout, restart_limit_exceeded, child_exited,
  child_panic_or_abort, capability_metadata_mismatch, lease_invalidated, Result, ok, err,
}
use lean_rs.Supervisor.Worker.{Method}
use lean_rs.WorkerPool.Entry.{PoolEntry, enforce_policy}
use lean_rs.WorkerPool.Lease.{LeanWorkerSessionLease, worker_generation}
use lean_rs.WorkerPool.Run.Called.{attempt, Called, retry-Called}
use lean_rs.WorkerPool.Run.{
  invalidates_lease, invalidate, invalid_lease_reason, generation_changed, ensure_valid, enforced,
  enforce_policy_before_request, settled_result, map_lifecycle_result, RunEnv, run_enforced,
  finish_run, run_checked, run_with_current_session,
}

-- Invalidated, or granted for a generation that is over.
abbrev pub IsStale : LeanWorkerSessionLease → Type 0
IsStale l = (l.valid ≡ false) ⊎ (worker_generation l.entry ≢ l.admitted_generation)

-- The call fails as an invalidated lease does, and leaves it as it is.
abbrev pub IsRejected {ℓ} :
    {A : Type ℓ} → LeanWorkerSessionLease → Result A × LeanWorkerSessionLease → Type ℓ
IsRejected l r = (reason : Text) × (r ≡ (err (lease_invalidated reason), l))

-- It may run a command.
abbrev pub IsCurrent : LeanWorkerSessionLease → Type 0
IsCurrent l = (l.valid ≡ true) × (worker_generation l.entry ≡ l.admitted_generation)

-- The errors after which a lease is over: a cancellation, a timeout, an exhausted restart limit, a
-- child that is gone, and metadata that does not match.
abbrev pub EndsLease : LeanWorkerError → Type 0
EndsLease (cancelled _ _) = Unit {0}
EndsLease (timeout _ _ _) = Unit {0}
EndsLease (restart_limit_exceeded _ _) = Unit {0}
EndsLease (child_exited _) = Unit {0}
EndsLease (child_panic_or_abort _) = Unit {0}
EndsLease (capability_metadata_mismatch _) = Unit {0}
EndsLease _ = ⊥

invalidates_lease-EndsLease :
    (x : LeanWorkerError)
    → ((invalidates_lease x ≡ true) × EndsLease x) ⊎ ((invalidates_lease x ≡ false) × ¬ EndsLease x)
unfolding invalidates_lease
invalidates_lease-EndsLease (cancelled _ _) = inl (refl, tt)
invalidates_lease-EndsLease (timeout _ _ _) = inl (refl, tt)
invalidates_lease-EndsLease (restart_limit_exceeded _ _) = inl (refl, tt)
invalidates_lease-EndsLease (child_exited _) = inl (refl, tt)
invalidates_lease-EndsLease (child_panic_or_abort _) = inl (refl, tt)
invalidates_lease-EndsLease (capability_metadata_mismatch _) = inl (refl, tt)
invalidates_lease-EndsLease _ = inr (refl, λ h. h)

-- What `ensure_valid` finds out.
ensure_valid-cases :
    (l : LeanWorkerSessionLease)
    → (IsStale l × ((reason : Text) × (ensure_valid l ≡ some (lease_invalidated reason))))
      ⊎ (IsCurrent l × (ensure_valid l ≡ none))
unfolding ensure_valid
ensure_valid-cases l = elim (Bool-cases l.valid) [
  | inr v ↦ inl (inl v, (invalid_lease_reason l, rw v refl))
  | inl v ↦ elim (Bool-cases (worker_generation l.entry == l.admitted_generation)) [
    | inl g ↦
        inr ((v, (==_iff (worker_generation l.entry) l.admitted_generation).0 g), rw (v, g) refl)
    | inr g ↦ inl (
      inr (differs (worker_generation l.entry) l.admitted_generation g),
      (generation_changed l.admitted_generation (worker_generation l.entry), rw (v, g) refl),
    )
  ]
]
  where
    differs : (m n : ℕ) → (m == n) ≡ false → m ≢ n
    differs m n g = ground (arith, ==_iff m n)

ensure_valid-IsStale :
    (l : LeanWorkerSessionLease)
    → IsStale l
    → (reason : Text) × (ensure_valid l ≡ some (lease_invalidated reason))
ensure_valid-IsStale l s = elim (ensure_valid-cases l) [
  | inl h ↦ h.1
  | inr h ↦ elim s [ inl v ↦ absurd (differ (sym h.0.0 ∙ v)) | inr g ↦ absurd (g h.0.1) ]
]
  where
    differ : true ≡ false → ⊥
    differ e = cc

module _ {ℓ} {A : Type ℓ} (command : Method A) (env : RunEnv) where
  -- A stale lease runs no command: whatever the command and the world do, the call reports the
  -- invalidation and changes nothing.
  pub run_with_current_session-IsStale :
      (l : LeanWorkerSessionLease)
      → IsStale l
      → IsRejected l (run_with_current_session command env l)
  unfolding run_with_current_session run_checked
  run_with_current_session-IsStale l s =
      let (reason, e) = ensure_valid-IsStale l s in (reason, rw e refl)

  -- How a run can end.
  pub data Ran (l : LeanWorkerSessionLease) (r : Result A × LeanWorkerSessionLease) : Type ℓ where
    rejected : IsStale l → IsRejected l r → Ran l r
    cycled :
        (reason : Text) (e : PoolEntry)
        → IsCurrent l
        → enforce_policy l.config env.policy l.entry ≡ (ok (some reason), e)
        → r ≡ (
          err (lease_invalidated reason),
          record l { entry = e; valid = false; invalidation_reason = some reason },
        )
        → Ran l r
    policy_failed :
        (x : LeanWorkerError) (e : PoolEntry)
        → IsCurrent l
        → enforce_policy l.config env.policy l.entry ≡ (err x, e)
        → r ≡ (err x, record l { entry = e })
        → Ran l r
    answered :
        (a : A) (e : PoolEntry)
        → IsCurrent l
        → enforce_policy l.config env.policy l.entry ≡ (ok none, e)
        → Called command env l e r.0
        → r.0 ≡ ok a
        → r.1.valid ≡ true
        → r.1.entry.last_activity ≡ env.finished
        → Ran l r
    failed_for_good :
        (x : LeanWorkerError) (e : PoolEntry)
        → IsCurrent l
        → enforce_policy l.config env.policy l.entry ≡ (ok none, e)
        → Called command env l e r.0
        → r.0 ≡ err x
        → EndsLease x
        → r.1.valid ≡ false
        → r.1.entry.last_activity ≡ env.finished
        → Ran l r
    failed :
        (x : LeanWorkerError) (e : PoolEntry)
        → IsCurrent l
        → enforce_policy l.config env.policy l.entry ≡ (ok none, e)
        → Called command env l e r.0
        → r.0 ≡ err x
        → ¬ EndsLease x
        → r.1.valid ≡ true
        → r.1.entry.last_activity ≡ env.finished
        → Ran l r

  settled-Ran :
      (l l' : LeanWorkerSessionLease) (r : Result A) (e : PoolEntry)
      → IsCurrent l
      → enforce_policy l.config env.policy l.entry ≡ (ok none, e)
      → Called command env l e r
      → l'.valid ≡ l.valid
      → l'.entry.last_activity ≡ env.finished
      → Ran l (settled_result r l')
  unfolding settled_result invalidate
  settled-Ran l l' (ok a) e c p k v t = answered a e c p k refl (v ∙ c.0) t
  settled-Ran l l' (err x) e c p k v t = elim (invalidates_lease-EndsLease x) [
    | inl i ↦ rw i.0 (failed_for_good x e c p k refl i.1 refl t)
    | inr i ↦ rw i.0 (failed x e c p k refl i.1 (v ∙ c.0) t)
  ]

  run_enforced-Ran :
      (l : LeanWorkerSessionLease) (r : Result (Option Text) × PoolEntry)
      → IsCurrent l
      → enforce_policy l.config env.policy l.entry ≡ r
      → Ran l (run_enforced command env (enforced l r))
  unfolding run_enforced enforced invalidate finish_run map_lifecycle_result
  run_enforced-Ran l (ok none, e) c p =
      settled-Ran l _ _ e c p (retry-Called command env l e (attempt command env l e) refl) refl
        refl
  run_enforced-Ran l (ok (some reason), e) c p = cycled reason e c p refl
  run_enforced-Ran l (err x, e) c p = policy_failed x e c p refl

  -- A stale lease, which was invalidated or granted for a generation that is over, is rejected and
  -- left as it is. On any other the pool's policy is checked: when that cycles the worker, the lease
  -- is invalidated for its reason, and when that fails, its error is returned and the lease stays
  -- valid. Otherwise the command runs on the entry's worker, a second time after a new session when
  -- the child had none; the run returns what that came to and notes the activity. The lease is
  -- invalidated when the result is a cancellation, a timeout, an exhausted restart limit, a child that
  -- is gone or a metadata mismatch, and stays valid after any other error and after an answer.
  pub run_with_current_session-Ran :
      (l : LeanWorkerSessionLease) → Ran l (run_with_current_session command env l)
  unfolding run_with_current_session run_checked enforce_policy_before_request
  run_with_current_session-Ran l = elim (ensure_valid-cases l) [
    | inl h ↦ rw h.1.1 (rejected h.0 (h.1.0, refl))
    | inr h ↦ rw h.1 (run_enforced-Ran l (enforce_policy l.config env.policy l.entry) h.0 refl)
  ]
