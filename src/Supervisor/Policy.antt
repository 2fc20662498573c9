-- ===== src/Supervisor/Policy.antt =====
-- crates/lean-rs-worker-parent/src/supervisor.rs: `LeanWorkerRestartPolicy`, its builder methods, and
-- `GenerationBudget`, what one child generation has accumulated.
pub mod Room
use lean_rs.Common.{
  ℕ, ◌≤◌, max, Bool, true, false, Option, none, some, leb, if◌then◌else◌, sat_add, sat_inc,
}
use lean_rs.Protocol.Message.{LeanWorkerImportStats}
use lean_rs.Supervisor.Types.{
  LeanWorkerRestartReason, max_requests, max_imports, import_residue, nanos_per_milli,
}

pub record RestartIntensityLimit : Type 0 where
  pub max_restarts : ℕ
  pub window : ℕ

-- 16 restarts in one minute.
abbrev pub default_restart_intensity : RestartIntensityLimit
default_restart_intensity = record { max_restarts = 16; window = 60000000000 }

pub record LeanWorkerRestartPolicy : Type 0 where
  pub max_requests : Option ℕ
  pub max_imports : Option ℕ
  pub max_import_residue_bytes : Option ℕ
  pub max_rss_kib : Option ℕ
  pub idle_restart_after : Option ℕ
  pub restart_intensity : RestartIntensityLimit

abbrev pub disabled : LeanWorkerRestartPolicy
disabled = record {
  max_requests = none;
  max_imports = none;
  max_import_residue_bytes = none;
  max_rss_kib = none;
  idle_restart_after = none;
  restart_intensity = default_restart_intensity;
}

unfoldable pub with_max_requests : ℕ → LeanWorkerRestartPolicy → LeanWorkerRestartPolicy
with_max_requests limit p = record p { max_requests = some (max limit 1) }

unfoldable pub with_max_imports : ℕ → LeanWorkerRestartPolicy → LeanWorkerRestartPolicy
with_max_imports limit p = record p { max_imports = some (max limit 1) }

unfoldable pub with_max_import_residue_bytes : ℕ → LeanWorkerRestartPolicy → LeanWorkerRestartPolicy
with_max_import_residue_bytes limit p = record p { max_import_residue_bytes = some (max limit 1) }

unfoldable pub with_max_rss_kib : ℕ → LeanWorkerRestartPolicy → LeanWorkerRestartPolicy
with_max_rss_kib limit p = record p { max_rss_kib = some (max limit 1) }

unfoldable pub with_idle_restart_after : ℕ → LeanWorkerRestartPolicy → LeanWorkerRestartPolicy
with_idle_restart_after d p = record p { idle_restart_after = some d }

unfoldable pub with_max_restarts_per_window :
    ℕ → ℕ → LeanWorkerRestartPolicy → LeanWorkerRestartPolicy
with_max_restarts_per_window n window p = record p {
  restart_intensity = record { max_restarts = max n 1; window = max window nanos_per_milli };
}

unfoldable pub memory_bounded : ℕ → ℕ → LeanWorkerRestartPolicy
unfolding with_max_imports with_max_rss_kib
memory_bounded imports rss = with_max_rss_kib rss (with_max_imports imports disabled)

pub record GenerationBudget : Type 0 where
  pub requests : ℕ
  pub imports : ℕ
  pub import_residue_bytes : ℕ

abbrev pub fresh_budget : GenerationBudget
fresh_budget = record { requests = 0; imports = 0; import_residue_bytes = 0 }

-- `GenerationBudget::record_request`.
unfoldable pub budget_record_request : Bool → GenerationBudget → GenerationBudget
budget_record_request import_like b = record b {
  requests = sat_inc b.requests;
  imports = if import_like then sat_inc b.imports else b.imports;
}

-- `GenerationBudget::record_import`.
unfoldable pub budget_record_import : LeanWorkerImportStats → GenerationBudget → GenerationBudget
budget_record_import stats b = record b {
  imports = sat_inc b.imports;
  import_residue_bytes = sat_add b.import_residue_bytes stats.non_memory_mapped_region_bytes;
}

import_count_reached : Option ℕ → ℕ → Option LeanWorkerRestartReason
import_count_reached none imports = none
import_count_reached (some limit) imports =
    if leb limit imports then some (max_imports limit) else none

-- The byte bound is asked first.
unfoldable pub import_limit_reached :
    GenerationBudget → LeanWorkerRestartPolicy → Option LeanWorkerRestartReason
unfolding import_count_reached
import_limit_reached b p = elim p.max_import_residue_bytes [
  | none ↦ import_count_reached p.max_imports b.imports
  | some limit ↦
      if leb limit b.import_residue_bytes
      then some (import_residue b.import_residue_bytes limit)
      else import_count_reached p.max_imports b.imports
]

unfoldable pub request_limit_reached :
    GenerationBudget → LeanWorkerRestartPolicy → Option LeanWorkerRestartReason
request_limit_reached b p = elim p.max_requests [
  | none ↦ none
  | some limit ↦ if leb limit b.requests then some (max_requests limit) else none
]
