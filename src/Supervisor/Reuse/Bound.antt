-- ===== src/Supervisor/Reuse/Bound.antt =====
-- The import limit under a reuse prediction: `open_worker_session` of
-- crates/lean-rs-worker-parent/src/supervisor.rs skips the import check when it expects a reuse, and
-- defers the restart when the child imports after all.
use lean_rs.Common.{
  ℕ, ◌+◌, ◌≤◌, ◌≡◌, refl, ◌⊎◌, inl, inr, String, Bool, true, false, ◌&&◌, Option, none, some, arith,
  ◌==◌, sat_add-le_add, if_rule,
}
use lean_rs.Protocol.Message.{
  LeanWorkerImportStats, Response, host_session_opened, host_session_reused,
}
use lean_rs.Supervisor.Types.{LeanWorkerRestartReason, Result, ok, err}
use lean_rs.Supervisor.Policy.{
  LeanWorkerRestartPolicy, GenerationBudget, fresh_budget, import_limit_reached,
  budget_record_request, budget_record_import,
}
use lean_rs.Supervisor.Policy.Room.{Under}
use lean_rs.Supervisor.Session.{LeanWorkerSessionConfig}
use lean_rs.Supervisor.Frame.{IsCoherent}
use lean_rs.Supervisor.Worker.{LeanWorker, Method, then_call}
use lean_rs.Supervisor.Shutdown.{write_request}
use lean_rs.Supervisor.Admission.{record_request}
use lean_rs.Supervisor.Admission.Prepared.{Runs, ensure_running-Runs}
use lean_rs.Supervisor.Request.{read_response}
use lean_rs.Supervisor.Request.Exits.{Reads}
use lean_rs.Supervisor.Request.Reads.{read_response-Reads}
use lean_rs.Supervisor.Reuse.{OpenEnv, on_opened, on_reused, on_answer, exchange}

-- One for a deferred restart, zero for none.
abbrev pub deferrals : Option LeanWorkerRestartReason → ℕ
deferrals none = 0
deferrals (some reason) = 1

-- At most `limit` imports, or one more while a restart is deferred.
abbrev pub Bounded : Option ℕ → ℕ → Option LeanWorkerRestartReason → Type 0
Bounded none imports pending = Unit {0}
Bounded (some limit) imports pending = imports ≤ limit + deferrals pending

abbrev pub IsBounded : LeanWorker → Type 0
IsBounded w = Bounded w.config.restart_policy.max_imports w.budget.imports w.pending_restart

-- At most one import past the limit.
abbrev pub Capped : Option ℕ → ℕ → Type 0
Capped none imports = Unit {0}
Capped (some limit) imports = imports ≤ limit + 1

abbrev pub IsCapped : LeanWorker → Type 0
IsCapped w = Capped w.config.restart_policy.max_imports w.budget.imports

abbrev pub Opens : Result (Unit {0}) × LeanWorker → Type 0
Opens (ok a, w) = IsBounded w
Opens (err e, w) = IsCapped w

-- Below the limit, or at it with the promise that the restart will be deferred.
pub data Ready (expected : Bool) (limit : Option ℕ) (imports : ℕ) : Type 0 where
  below : Under imports limit → Ready expected limit imports
  at_most : expected ≡ true → Capped limit (imports + 1) → Ready expected limit imports

import_limit_reached-Bounded :
    (b : GenerationBudget) (p : LeanWorkerRestartPolicy) (limit : Option ℕ)
    → p.max_imports ≡ limit
    → Capped limit b.imports
    → Bounded limit b.imports (import_limit_reached b p)
unfolding import_limit_reached
import_limit_reached-Bounded b p none e h = tt
import_limit_reached-Bounded b p (some limit) e h = ground arith

Bounded-le :
    (limit : Option ℕ) (m n : ℕ) (pending : Option LeanWorkerRestartReason)
    → m ≤ n + 1
    → Under n limit
    → Bounded limit m pending
Bounded-le none m n pending h u = tt
Bounded-le (some limit) m n none h u = omega arith
Bounded-le (some limit) m n (some r) h u = omega arith

Capped-le : (limit : Option ℕ) (m n : ℕ) → m ≤ n + 1 → Capped limit (n + 1) → Capped limit m
Capped-le none m n h u = tt
Capped-le (some limit) m n h u = omega arith

on_opened-IsBounded :
    (k : LeanWorkerSessionConfig) (expect_reuse : Bool) (before elapsed : ℕ)
    (stats : LeanWorkerImportStats) (w : LeanWorker)
    → Ready expect_reuse w.config.restart_policy.max_imports w.budget.imports
    → IsBounded (on_opened k expect_reuse before elapsed stats w)
unfolding on_opened budget_record_import
on_opened-IsBounded k expect_reuse before elapsed stats w (below u) =
    Bounded-le _ _ w.budget.imports _ (sat_add-le_add w.budget.imports 1) u
on_opened-IsBounded k expect_reuse before elapsed stats w (at_most e u) = rw e (
    import_limit_reached-Bounded (budget_record_import stats w.budget) w.config.restart_policy _
      refl (Capped-le _ _ w.budget.imports (sat_add-le_add w.budget.imports 1) u))

pub Bounded-Capped :
    (limit : Option ℕ) (m : ℕ) (pending : Option LeanWorkerRestartReason)
    → Bounded limit m pending
    → Capped limit m
Bounded-Capped none m pending h = tt
Bounded-Capped (some limit) m none h = omega arith
Bounded-Capped (some limit) m (some r) h = h

Capped-zero : (limit : Option ℕ) → Capped limit 0
Capped-zero none = tt
Capped-zero (some limit) = omega arith

pub Reads-Capped :
    (u w : LeanWorker)
    → ((w.budget ≡ u.budget) ⊎ (w.budget ≡ fresh_budget)) × (w.config ≡ u.config)
    → IsCapped u
    → IsCapped w
Reads-Capped u w (inl b, c) h = rw (b, c) h
Reads-Capped u w (inr b, c) h = rw (b, c) (Capped-zero _)

on_answer-Opens :
    (k : LeanWorkerSessionConfig) (expect_reuse : Bool) (before elapsed : ℕ) (u : LeanWorker)
    (r : Result Response × LeanWorker)
    → Reads u r
    → Ready expect_reuse u.config.restart_policy.max_imports u.budget.imports
    → IsBounded u
    → Opens (on_answer k expect_reuse before elapsed r)
unfolding on_answer on_reused
on_answer-Opens k e before elapsed u (err x, w) h ready bound =
    Reads-Capped u w h (Bounded-Capped _ _ u.pending_restart bound)
on_answer-Opens k e before elapsed u (ok (host_session_opened stats), w) (b, p, c) ready bound =
    on_opened-IsBounded k e before elapsed stats w (rw (b, c) ready)
on_answer-Opens k e before elapsed u (ok (host_session_reused stats), w) (b, p, c) ready bound =
    rw (b, p, c) bound
on_answer-Opens k e before elapsed u (ok x, w) (b, p, c) ready bound =
    rw (b, c) (Bounded-Capped _ _ u.pending_restart bound)

module _ (k : LeanWorkerSessionConfig) (expected : Bool) (before : ℕ) (env : OpenEnv) where
  -- What follows the write.
  abbrev replying : Bool → Unit {0} → Method (Unit {0})
  replying e _ v =
      on_answer k e before env.elapsed (read_response env.answer (record_request false env.now v))

  write_request-Opens :
      (e : Bool) (w : LeanWorker) (write : Option String)
      → Ready e w.config.restart_policy.max_imports w.budget.imports
      → IsBounded w
      → IsCoherent w
      → Opens (then_call (replying e) (write_request write w))
  unfolding write_request record_request budget_record_request
  write_request-Opens e w none ready bound c =
      if_rule (λ r. Opens (then_call (replying e) r)) w.stdin
        (on_answer-Opens k e before env.elapsed (record_request false env.now w)
          (read_response env.answer (record_request false env.now w))
          (read_response-Reads env.answer (record_request false env.now w) c) ready bound)
        (Bounded-Capped _ _ w.pending_restart bound)
  write_request-Opens e w (some message) ready bound c =
      if_rule (λ r. Opens (then_call (replying e) r)) w.stdin
        (Bounded-Capped _ _ w.pending_restart bound) (Bounded-Capped _ _ w.pending_restart bound)

  pub exchange-Opens :
      (w : LeanWorker)
      → IsCoherent w
      → Ready
          (expected && (w.stats.restarts == before))
          w.config.restart_policy.max_imports
          w.budget.imports
      → IsBounded w
      → Opens (exchange k expected before env w)
  unfolding exchange
  exchange-Opens w c ready bound = after _ (ensure_running-Runs env.poll w)
    where
      e : Bool
      e = expected && (w.stats.restarts == before)

      after :
          (r : Result (Unit {0}) × LeanWorker)
          → Runs w r
          → Opens (then_call (λ _ v. then_call (replying e) (write_request env.write v)) r)
      after (ok _, v) h = rw h (write_request-Opens e w env.write ready bound c)
      after (err x, v) h =
          Reads-Capped w v (h.budget, h.config) (Bounded-Capped _ _ w.pending_restart bound)
