-- ===== src/Supervisor/Reuse/Opened.antt =====
-- The whole open: `open_worker_session` of crates/lean-rs-worker-parent/src/supervisor.rs, from the
-- deferred restart to the answer.
use lean_rs.Common.{
  ℕ, ◌+◌, ◌≡◌, refl, ◌⊎◌, inl, inr, Bool, true, false, not, ◌&&◌, Option, none, some, List, [],
  arith, ◌==◌,
}
use lean_rs.Supervisor.Types.{LeanWorkerRestartReason, Result, ok, err}
use lean_rs.Supervisor.Policy.Room.{IsClamped, Under-zero}
use lean_rs.Supervisor.Frame.{IsCoherent}
use lean_rs.Supervisor.Restart.Outcome.{Restarts, restart_with_reason-Restarts}
use lean_rs.Supervisor.Session.{LeanWorkerSessionConfig, session_config_eq}
use lean_rs.Supervisor.Worker.{LeanWorker, then_call}
use lean_rs.Supervisor.Admission.{check_cancelled}
use lean_rs.Supervisor.Admission.Prepared.{kept, replaced, Prepares, prepare_request-Prepares}
use lean_rs.Supervisor.Reuse.{
  OpenEnv, holds, take_pending, take_reason, exchange, admit_open, open_worker_session,
}
use lean_rs.Supervisor.Reuse.Bound.{
  Bounded, IsBounded, Capped, Opens, below, at_most, Bounded-Capped, Reads-Capped, exchange-Opens,
}

-- The worker when the open begins: its deferred restart is done, and either no restart has happened
-- since the prediction's base line, or nothing is left to reuse.
record Starts (before : ℕ) (w : LeanWorker) : Type 0 where
  settled : w.pending_restart ≡ none
  bounded : IsBounded w
  coherent : IsCoherent w
  clamped : IsClamped w.config.restart_policy
  base : (w.stats.restarts ≡ before) ⊎ (w.open_session_keys ≡ [])

Bounded-settled :
    (limit : Option ℕ) (m : ℕ) (pending : Option LeanWorkerRestartReason)
    → pending ≡ none
    → Bounded limit m pending
    → Capped limit (m + 1)
Bounded-settled none m pending e h = tt
Bounded-settled (some limit) m none e h = omega arith
Bounded-settled (some limit) m (some r) e h = cc

Bounded-zero :
    (limit : Option ℕ) (pending : Option LeanWorkerRestartReason) → Bounded limit 0 pending
Bounded-zero none p = tt
Bounded-zero (some limit) p = omega arith

==_refl : (n : ℕ) → (n == n) ≡ true
==_refl n = ground arith

expects_nothing :
    (hint : Bool) (k : LeanWorkerSessionConfig) (keys : List LeanWorkerSessionConfig)
    → keys ≡ []
    → (hint && holds k keys) ≡ false
unfolding holds
expects_nothing false k keys e = refl
expects_nothing true k keys e = rw e refl

prepared-Opens :
    (k : LeanWorkerSessionConfig) (expected : Bool) (before : ℕ) (env : OpenEnv) (w : LeanWorker)
    (r : Result (Unit {0}) × LeanWorker)
    → Starts before w
    → (expected ≡ true → w.stats.restarts ≡ before)
    → Prepares (not expected) w r
    → Opens (then_call (λ _. exchange k expected before env) r)
prepared-Opens k expected before env w (err e, v) s base h =
    Reads-Capped w v (h.budget, h.config) (Bounded-Capped _ _ w.pending_restart s.bounded)
prepared-Opens k expected before env w (ok a, v) s base (replaced b p c ks coh) =
    exchange-Opens k expected before env v coh
      (below (rw (b, c) (Under-zero _ s.clamped.max_imports))) (rw (b, c) (Bounded-zero _ _))
prepared-Opens k true before env w (ok a, v) s base (kept b p c n ks room coh) =
    exchange-Opens k true before env v coh
      (at_most (rw (n, base refl) (==_refl before))
        (rw (b, c) (Bounded-settled _ _ w.pending_restart s.settled s.bounded)))
      (rw (b, c, p) s.bounded)
prepared-Opens k false before env w (ok a, v) s base (kept b p c n ks room coh) =
    exchange-Opens k false before env v coh (below (rw (b, c) (room.imports refl).imports))
      (rw (b, c, p) s.bounded)

admit_open-Opens :
    (k : LeanWorkerSessionConfig) (before : ℕ) (env : OpenEnv) (w : LeanWorker)
    → Starts before w
    → Opens (admit_open k before env w)
unfolding admit_open
admit_open-Opens k before env w s =
    prepared-Opens k _ before env w _ s base (prepare_request-Prepares _ env.admission w s.coherent)
  where
    base : (w.reuse_hint_enabled && holds k w.open_session_keys) ≡ true → w.stats.restarts ≡ before
    base h = elim s.base [
      | inl e ↦ e
      | inr e ↦ cc (expects_nothing w.reuse_hint_enabled k w.open_session_keys e, h)
    ]

taken-Opens :
    (k : LeanWorkerSessionConfig) (reason : LeanWorkerRestartReason) (env : OpenEnv)
    (w : LeanWorker) (r : Result (Unit {0}) × LeanWorker)
    → IsClamped w.config.restart_policy
    → IsBounded w
    → Restarts reason env.deferred (record w { pending_restart = none }) r
    → Opens (then_call (λ _. admit_open k w.stats.restarts env) r)
taken-Opens k reason env w (ok a, v) c bound h = admit_open-Opens k w.stats.restarts env v (record {
  settled = h.settled;
  bounded = rw (h.budget, h.config) (Bounded-zero _ _);
  coherent = h.coherent;
  clamped = rw h.config c;
  base = inr h.forgotten;
})
taken-Opens k reason env w (err e, v) c bound h =
    Reads-Capped w v (h.budget, h.config) (Bounded-Capped _ _ w.pending_restart bound)

take_reason-Opens :
    (k : LeanWorkerSessionConfig) (env : OpenEnv) (w : LeanWorker)
    (pending : Option LeanWorkerRestartReason)
    → w.pending_restart ≡ pending
    → IsClamped w.config.restart_policy
    → IsCoherent w
    → IsBounded w
    → Opens
        (then_call (λ _. admit_open k w.stats.restarts env) (take_reason env.deferred pending w))
unfolding take_reason
take_reason-Opens k env w none e c coherent bound =
    admit_open-Opens k w.stats.restarts env w
      (record { settled = e; bounded = bound; coherent = coherent; clamped = c; base = inl refl })
take_reason-Opens k env w (some reason) e c coherent bound = taken-Opens k reason env w _ c bound (
    restart_with_reason-Restarts reason env.deferred (record w { pending_restart = none }) coherent)

-- Over a whole open, under any child and any clock: a generation never holds more imports than its
-- limit, but for the one that a wrong reuse prediction let through unchecked. When the open returns
-- `Ok`, that one import is there only beside a restart deferred to the next open; when it fails,
-- there is at most that one. The policy's limits are positive, no exit is on record beside a live
-- child, the bound held before, and the answer charges no import.
pub open_worker_session-Opens :
    (k : LeanWorkerSessionConfig) (env : OpenEnv) (w : LeanWorker)
    → IsClamped w.config.restart_policy
    → IsCoherent w
    → IsBounded w
    → Opens (open_worker_session k env w)
unfolding open_worker_session check_cancelled take_pending
open_worker_session-Opens k env w c coherent bound = cancel _
  where
    cancel :
        (b : Bool)
        → Opens (
            then_call
              (λ _ w0.
                then_call (λ _. admit_open k w.stats.restarts env) (take_pending env.deferred w0))
              (check_cancelled "open_worker_session" b w))
    cancel false = take_reason-Opens k env w _ refl c coherent bound
    cancel true = Bounded-Capped _ _ w.pending_restart bound
