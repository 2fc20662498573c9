-- ===== src/Capability/Session.antt =====
-- crates/lean-rs-worker-parent/src/capability.rs: `session_key` of a builder, what the pool asks of a builder,
-- and planning.rs: `capability_builder`, the builder of a planned batch.
use lean_rs.Common.{ℕ, String, Option, none, some, if◌then◌else◌}
use lean_rs.Common.Options.{get_or, is_some}
use lean_rs.Supervisor.Policy.{LeanWorkerRestartPolicy}
use lean_rs.WorkerPool.Config.{LeanWorkerRestartPolicyClass, custom, LeanWorkerSessionKey}
use lean_rs.WorkerPool.Entry.{LeanWorkerCapabilityBuilder as PoolBuilder}
use lean_rs.Planner.Work.{
  restart_policy_class, LeanWorkerPlannedBatch, LeanWorkerPlanMetadataExpectation,
}
use lean_rs.Planner.Plan.{
  PlanEnv, normalize_import_workspace_root, new_session_key, with_import_profile,
  with_restart_policy_class, with_metadata_expectation,
}
use lean_rs.Capability.Builder.{
  LeanWorkerCapabilityBuilder, Setter, CapabilityMetadataCheck, new_builder, choose_import_profile,
  choose_restart_policy, choose_validate_metadata, choose_expect_metadata, request_timeout_default,
}

unfoldable pub with_metadata_check :
    Option CapabilityMetadataCheck → LeanWorkerSessionKey → LeanWorkerSessionKey
unfolding with_metadata_expectation
with_metadata_check none k = k
with_metadata_check (some c) k = with_metadata_expectation c.export c.request c.expected k

module _ (env : PlanEnv) where
  unfoldable pub with_import_workspace_root : String → LeanWorkerSessionKey → LeanWorkerSessionKey
  unfolding normalize_import_workspace_root
  with_import_workspace_root root k = record k {
    import_workspace_root = normalize_import_workspace_root env root;
  }

  unfoldable pub with_built_manifest_path :
      Option String → LeanWorkerSessionKey → LeanWorkerSessionKey
  unfolding normalize_import_workspace_root
  with_built_manifest_path none k = k
  with_built_manifest_path (some path) k = record k {
    built_manifest_path = some (normalize_import_workspace_root env path);
  }

module _ {Built : Type 0} where
  -- The pool capacity rides the class.
  unfoldable pub builder_class : LeanWorkerCapabilityBuilder Built → LeanWorkerRestartPolicyClass
  unfolding restart_policy_class
  builder_class b =
      if is_some b.session_pool_capacity then custom else restart_policy_class b.restart_policy

  abbrev pub restart_with : Option LeanWorkerRestartPolicy → Setter Built
  restart_with none b = b
  restart_with (some policy) b = choose_restart_policy policy b

  abbrev pub check_expected : String → String → Option String → Setter Built
  check_expected export request none b = choose_validate_metadata export request b
  check_expected export request (some expected) b = choose_expect_metadata export request expected b

  abbrev pub check_with : Option LeanWorkerPlanMetadataExpectation → Setter Built
  check_with none b = b
  check_with (some x) b = check_expected x.export x.request x.expected b

  -- `LeanWorkerPlannedBatch::capability_builder`.
  unfoldable pub capability_builder : LeanWorkerPlannedBatch → LeanWorkerCapabilityBuilder Built
  unfolding new_builder choose_import_profile choose_restart_policy choose_expect_metadata
      choose_validate_metadata
  capability_builder batch = check_with batch.metadata_expectation (
      restart_with batch.restart_policy (
        choose_import_profile batch.import_profile
          (new_builder batch.project_root batch.package_name batch.lib_name batch.imports)))

  unfoldable pub pool_request_timeout : LeanWorkerCapabilityBuilder Built → ℕ
  pool_request_timeout b = get_or b.request_timeout request_timeout_default

module _ {Built : Type 0} (env : PlanEnv) where
  unfoldable pub effective_import_workspace_root : LeanWorkerCapabilityBuilder Built → String
  unfolding normalize_import_workspace_root
  effective_import_workspace_root b =
      get_or b.import_workspace_root (normalize_import_workspace_root env b.project_root)

  -- `LeanWorkerCapabilityBuilder::session_key`.
  unfoldable pub session_key : LeanWorkerCapabilityBuilder Built → LeanWorkerSessionKey
  unfolding new_session_key with_import_profile with_restart_policy_class
      effective_import_workspace_root builder_class with_import_workspace_root
      with_built_manifest_path with_metadata_check
  session_key b = with_metadata_check b.metadata_check (
      with_built_manifest_path env b.built_manifest_path (
        with_restart_policy_class (builder_class b) (
          with_import_workspace_root env (effective_import_workspace_root b) (
            with_import_profile b.import_profile
              (new_session_key env b.project_root b.package_name b.lib_name b.imports)))))

  -- What the pool asks of the builder.
  unfoldable pub pool_builder : LeanWorkerCapabilityBuilder Built → PoolBuilder
  unfolding session_key pool_request_timeout
  pool_builder b = record {
    session_key = session_key b;
    pool_request_timeout = pool_request_timeout b;
  }
