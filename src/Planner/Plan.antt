-- ===== src/Planner/Plan.antt =====
-- crates/lean-rs-worker-parent/src/planning.rs: `LeanWorkerImportPlanner`. The canonical form of a path,
-- the fingerprint of the toolchain and the answer of the discovery (crates/lean-toolchain) are arguments.
pub mod Collect
pub mod Partition
pub mod Lake
use lean_rs.Common.{
  String, Bool, if◌then◌else◌, Option, none, some, List, [], ◌∷◌, map, ◌⊎◌, inl, inr,
}
use lean_rs.Common.Equality.{◌=?◌, string_eq}
use lean_rs.Common.Order.{Ord, string_ord}
use lean_rs.Common.Unique.{contains}
use lean_rs.Common.Options.{or_else, get_or}
use lean_rs.Protocol.Message.{LeanWorkerSessionImportProfile, private}
use lean_rs.WorkerPool.Config.{
  LeanWorkerRestartPolicyClass, default, LeanWorkerMetadataExpectationKey, LeanWorkerSessionKey,
}
use lean_rs.Planner.Names.{
  LeanWorkerImportPlanError, module_discovery, unresolved_capability_target, PlanResult, planned,
  refused, CharClass, validate_module_name,
}
use lean_rs.Planner.Work.{
  LeanWorkerPlanMetadataExpectation, LeanWorkerImportPlanConfig, LeanWorkerModuleWork,
  LeanModuleSetFingerprint, LeanLakeProjectModules, LeanModuleDescriptor, from_descriptor,
  BatchGroupKey, group_key_ord, batch_key_string, restart_policy_class, LeanWorkerBatchFingerprint,
  LeanWorkerPlannedBatch,
}
use lean_rs.Planner.Groups.{entry_push, sort_by}

-- What the operating system and the toolchain answer.
pub record PlanEnv : Type 0 where
  pub class : CharClass
  -- `std::fs::canonicalize`, where it succeeds.
  pub canonicalize : String → Option String
  -- `ToolchainFingerprint::current`.
  pub current_toolchain : String

abbrev pub Groups : Type 0
Groups = List (BatchGroupKey × List LeanWorkerModuleWork)

unfoldable pub with_import_profile :
    LeanWorkerSessionImportProfile → LeanWorkerSessionKey → LeanWorkerSessionKey
with_import_profile profile k = record k { import_profile = profile }

unfoldable pub with_restart_policy_class :
    LeanWorkerRestartPolicyClass → LeanWorkerSessionKey → LeanWorkerSessionKey
with_restart_policy_class class k = record k { restart_policy_class = class }

unfoldable pub with_metadata_expectation :
    String → String → Option String → LeanWorkerSessionKey → LeanWorkerSessionKey
with_metadata_expectation export request expected k = record k {
  metadata_expectation = some (record { export = export; request = request; expected = expected });
}

module _ (env : PlanEnv) where
  unfoldable pub normalize_import_workspace_root : String → String
  normalize_import_workspace_root path = get_or (env.canonicalize path) path

  -- `LeanWorkerSessionKey::new`.
  unfoldable pub new_session_key : String → String → String → List String → LeanWorkerSessionKey
  unfolding normalize_import_workspace_root
  new_session_key project_root package_name lib_name imports =
      let root = normalize_import_workspace_root project_root in
      record {
        project_root = root;
        import_workspace_root = normalize_import_workspace_root root;
        built_manifest_path = none;
        package_name = package_name;
        lib_name = lib_name;
        imports = imports;
        import_profile = private;
        metadata_expectation = none;
        toolchain_fingerprint = env.current_toolchain;
        restart_policy_class = default;
      }

  -- A session key of the group, before its metadata.
  unfoldable pub plain_session_key : BatchGroupKey → LeanWorkerSessionKey
  unfolding new_session_key with_import_profile with_restart_policy_class
  plain_session_key key = with_restart_policy_class key.restart_policy_class (
      with_import_profile key.import_profile
        (new_session_key key.project_root key.package_name key.lib_name key.imports))

module _ (env : PlanEnv) (config : LeanWorkerImportPlanConfig) where
  unfoldable pub group_key : LeanWorkerModuleWork → BatchGroupKey
  unfolding restart_policy_class
  group_key work = record {
    project_root = config.project_root;
    package_name = config.package_name;
    lib_name = config.lib_name;
    source_root = work.source_root;
    imports = work.imports;
    import_profile = config.import_profile;
    restart_policy_class = restart_policy_class config.restart_policy;
  }

  -- The two checks of one module.
  unfoldable pub check_work : LeanWorkerModuleWork → Option LeanWorkerImportPlanError
  unfolding validate_module_name
  check_work work =
      or_else (validate_module_name env.class work.module_name)
        (validate_module_name env.class work.source_root)

  -- The loop over the modules, with the groups collected so far.
  unfoldable pub collect : Groups → List LeanWorkerModuleWork → PlanResult Groups
  unfolding check_work group_key entry_push
  collect groups [] = planned groups
  collect groups (work ∷ rest) =
      let behind = collect (entry_push (group_key work) work groups) rest in
      elim (check_work work) [ none ↦ behind | some e ↦ refused e ]

  unfoldable pub expect_metadata :
      Option LeanWorkerPlanMetadataExpectation → LeanWorkerSessionKey → LeanWorkerSessionKey
  unfolding with_metadata_expectation
  expect_metadata none k = k
  expect_metadata (some x) k = with_metadata_expectation x.export x.request x.expected k

  unfoldable pub session_key_of : BatchGroupKey → LeanWorkerSessionKey
  unfolding plain_session_key expect_metadata
  session_key_of key = expect_metadata config.metadata_expectation (plain_session_key env key)

  -- One round of the second loop.
  unfoldable pub batch_of :
      LeanModuleSetFingerprint → BatchGroupKey × List LeanWorkerModuleWork → LeanWorkerPlannedBatch
  unfolding sort_by session_key_of batch_key_string
  batch_of source_set (key, group) =
      let sorted = sort_by (λ w. w.module_name) group in
      record {
        session_key = session_key_of key;
        project_root = key.project_root;
        package_name = key.package_name;
        lib_name = key.lib_name;
        source_root = key.source_root;
        imports = key.imports;
        import_profile = key.import_profile;
        modules = sorted;
        fingerprint = record {
          toolchain = source_set.toolchain;
          source_set = source_set;
          batch_key = batch_key_string key sorted;
        };
        metadata_expectation = config.metadata_expectation;
        restart_policy = config.restart_policy;
      }

  unfoldable pub plan_work_items :
      List LeanWorkerModuleWork
      → LeanModuleSetFingerprint
      → PlanResult (List LeanWorkerPlannedBatch)
  unfolding collect batch_of
  plan_work_items modules source_set = elim (collect [] modules) [
    | planned groups ↦ planned (map (batch_of source_set) groups)
    | refused e ↦ refused e
  ]

  unfoldable pub plan_discovered : LeanLakeProjectModules → PlanResult (List LeanWorkerPlannedBatch)
  unfolding plan_work_items from_descriptor
  plan_discovered discovered =
      plan_work_items (map (λ d. from_descriptor d config.base_imports) discovered.modules)
        discovered.fingerprint

  -- What `discover_lake_modules` answered.
  unfoldable pub plan_answer :
      LeanLakeProjectModules ⊎ String → PlanResult (List LeanWorkerPlannedBatch)
  unfolding plan_discovered
  plan_answer (inl discovered) =
      if contains config.lib_name discovered.declared_lean_libs
      then plan_discovered discovered
      else refused (unresolved_capability_target discovered.project_root config.lib_name)
  plan_answer (inr diagnostic) = refused (module_discovery diagnostic)

  -- The discovery is asked for the project root and the selected source roots.
  unfoldable pub plan_lake_project :
      (String → Option (List String) → LeanLakeProjectModules ⊎ String)
      → PlanResult (List LeanWorkerPlannedBatch)
  unfolding plan_answer
  plan_lake_project discover_lake_modules =
      plan_answer (discover_lake_modules config.project_root config.source_roots)
