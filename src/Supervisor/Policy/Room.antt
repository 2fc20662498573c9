-- ===== src/Supervisor/Policy/Room.antt =====
-- The limits of a restart policy, and the room that a generation has left under them:
-- `GenerationBudget` of crates/lean-rs-worker-parent/src/supervisor.rs.
use lean_rs.Common.{ℕ, ◌≤◌, ◌<◌, ◌≡◌, Bool, true, Option, none, some, arith}
use lean_rs.Supervisor.Policy.{
  LeanWorkerRestartPolicy, GenerationBudget, fresh_budget, import_limit_reached,
  request_limit_reached,
}

-- The builder methods clamp each limit to at least one.
abbrev pub IsPositive : Option ℕ → Type 0
IsPositive none = Unit {0}
IsPositive (some limit) = 1 ≤ limit

pub record IsClamped (p : LeanWorkerRestartPolicy) : Type 0 where
  pub max_requests : IsPositive p.max_requests
  pub max_imports : IsPositive p.max_imports
  pub max_import_residue_bytes : IsPositive p.max_import_residue_bytes

-- Below the limit, where there is one.
abbrev pub Under : ℕ → Option ℕ → Type 0
Under n none = Unit {0}
Under n (some limit) = n < limit

pub record HasImportRoom (b : GenerationBudget) (p : LeanWorkerRestartPolicy) : Type 0 where
  pub imports : Under b.imports p.max_imports
  pub residue : Under b.import_residue_bytes p.max_import_residue_bytes

pub record HasRoom (import_like : Bool) (b : GenerationBudget) (p : LeanWorkerRestartPolicy)
    : Type 0 where
  pub requests : Under b.requests p.max_requests
  pub imports : import_like ≡ true → HasImportRoom b p

pub Under-zero : (o : Option ℕ) → IsPositive o → Under 0 o
Under-zero none h = tt
Under-zero (some limit) h = h

pub fresh-HasRoom :
    (import_like : Bool) (p : LeanWorkerRestartPolicy)
    → IsClamped p
    → HasRoom import_like fresh_budget p
fresh-HasRoom import_like p c = record {
  requests = Under-zero p.max_requests c.max_requests;
  imports = λ _. record {
    imports = Under-zero p.max_imports c.max_imports;
    residue = Under-zero p.max_import_residue_bytes c.max_import_residue_bytes;
  };
}

pub request_limit_reached-Under :
    (b : GenerationBudget) (p : LeanWorkerRestartPolicy) (limit : Option ℕ)
    → p.max_requests ≡ limit
    → request_limit_reached b p ≡ none
    → Under b.requests limit
unfolding request_limit_reached
request_limit_reached-Under b p none e h = tt
request_limit_reached-Under b p (some limit) e h = ground arith

pub import_limit_reached-HasImportRoom :
    (b : GenerationBudget) (p : LeanWorkerRestartPolicy)
    → import_limit_reached b p ≡ none
    → HasImportRoom b p
unfolding import_limit_reached
import_limit_reached-HasImportRoom b p h = ground arith
