-- ===== src/Capability/Tests.antt =====
-- Concrete builders of crates/lean-rs-worker-parent/src/capability.rs, and the theorems at them.
use lean_rs.Common.{◌≡◌, refl}
use lean_rs.Supervisor.Policy.{memory_bounded}
use lean_rs.WorkerPool.Config.{custom}
use lean_rs.Planner.Work.{LeanWorkerImportPlanConfig}
use lean_rs.Planner.Config.{plan_restart_policy, plan_expect_metadata}
use lean_rs.Planner.Plan.{plan_work_items}
use lean_rs.Planner.Samples.{env, config, source_set, three}
use lean_rs.Common.Equality.{string_eq}
use lean_rs.Common.Unique.{IsUnique}
use lean_rs.Toolchain.Abi.{string_io_signature}
use lean_rs.Capability.Signatures.{add_worker_export_signature-IsUnique}
use lean_rs.Capability.Builder.{
  symbols, add_worker_export_signature, choose_string_export, LeanWorkerCapabilityBuilder,
  new_builder, choose_session_pool_capacity,
}
use lean_rs.Capability.Session.{session_key, pool_request_timeout}
use lean_rs.Capability.Worker.{spawn_config}
use lean_rs.Capability.Worker.Within.{IsWithin, spawn_config-agrees}
use lean_rs.Capability.Planned.{AllOf, NamesSession, capability_builder-session_key}

-- The planner's configuration with a metadata expectation and a restart policy.
abbrev checked_config : LeanWorkerImportPlanConfig
checked_config =
    plan_restart_policy (memory_bounded 1 1572864) (plan_expect_metadata "meta" "{}" "v1" config)

abbrev plain : LeanWorkerCapabilityBuilder Unit
plain = new_builder "/project" "demo" "Demo" config.base_imports

capacity_changes_the_class :
    (session_key env (choose_session_pool_capacity 4 plain)).restart_policy_class ≡ custom
unfolding session_key choose_session_pool_capacity new_builder
capacity_changes_the_class = refl

capability_builder-session_key_example :
    AllOf Unit env checked_config
      (NamesSession Unit env checked_config)
      (plan_work_items env checked_config three source_set)
capability_builder-session_key_example =
    capability_builder-session_key Unit env checked_config source_set three

abbrev trusting : LeanWorkerCapabilityBuilder Unit
trusting = choose_string_export "run" plain

add_worker_export_signature-IsUnique_example : IsUnique (
    symbols
      (add_worker_export_signature (string_io_signature "meta") trusting).worker_export_signatures)
unfolding choose_string_export new_builder
add_worker_export_signature-IsUnique_example =
    add_worker_export_signature-IsUnique (string_io_signature "meta") trusting (refl, tt)

spawn_config-agrees_example :
    IsWithin (spawn_config "worker" (choose_session_pool_capacity 0 plain))
    × ((spawn_config "worker" (choose_session_pool_capacity 0 plain)).request_timeout
        ≡ pool_request_timeout (choose_session_pool_capacity 0 plain))
spawn_config-agrees_example = spawn_config-agrees "worker" (choose_session_pool_capacity 0 plain)
