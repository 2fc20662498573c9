-- ===== src/Planner/Config.antt =====
-- crates/lean-rs-worker-parent/src/planning.rs: the builder methods of `LeanWorkerImportPlanConfig`.
use lean_rs.Common.{String, none, some, List, []}
use lean_rs.Protocol.Message.{LeanWorkerSessionImportProfile, private}
use lean_rs.Supervisor.Policy.{LeanWorkerRestartPolicy}
use lean_rs.Planner.Work.{LeanWorkerImportPlanConfig}

abbrev pub Update : Type 0
Update = LeanWorkerImportPlanConfig → LeanWorkerImportPlanConfig

-- `LeanWorkerImportPlanConfig::new`.
unfoldable pub new_plan_config : String → String → String → LeanWorkerImportPlanConfig
new_plan_config project_root package_name lib_name = record {
  project_root = project_root;
  package_name = package_name;
  lib_name = lib_name;
  source_roots = none;
  base_imports = [];
  import_profile = private;
  metadata_expectation = none;
  restart_policy = none;
}

unfoldable pub plan_source_roots : List String → Update
plan_source_roots roots c = record c { source_roots = some roots }

unfoldable pub plan_base_imports : List String → Update
plan_base_imports imports c = record c { base_imports = imports }

unfoldable pub plan_import_profile : LeanWorkerSessionImportProfile → Update
plan_import_profile profile c = record c { import_profile = profile }

unfoldable pub plan_validate_metadata : String → String → Update
plan_validate_metadata export request c = record c {
  metadata_expectation = some (record { export = export; request = request; expected = none });
}

unfoldable pub plan_expect_metadata : String → String → String → Update
plan_expect_metadata export request expected c = record c {
  metadata_expectation =
      some (record { export = export; request = request; expected = some expected });
}

unfoldable pub plan_restart_policy : LeanWorkerRestartPolicy → Update
plan_restart_policy policy c = record c { restart_policy = some policy }
