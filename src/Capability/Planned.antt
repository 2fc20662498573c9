-- ===== src/Capability/Planned.antt =====
-- crates/lean-rs-worker-parent/src/planning.rs and capability.rs: the planner's batches and the builders that
-- open them name one session.
use lean_rs.Common.{String, ◌≡◌, refl, sym, ap, ◌∙◌, Option, none, some, List, ◌∷◌, [], All}
use lean_rs.Supervisor.Policy.{LeanWorkerRestartPolicy}
use lean_rs.Planner.Names.{PlanResult, planned, refused}
use lean_rs.Planner.Work.{
  BatchGroupKey, restart_policy_class, LeanWorkerPlannedBatch, LeanWorkerPlanMetadataExpectation,
  LeanWorkerImportPlanConfig, LeanWorkerModuleWork, LeanModuleSetFingerprint,
}
use lean_rs.Planner.Plan.{
  PlanEnv, session_key_of, plain_session_key, expect_metadata, plan_work_items,
}
use lean_rs.Planner.Plan.Partition.{
  IsBatch, key_of_batch, Plans, partitioned, stopped, plan_work_items-Plans,
}
use lean_rs.Capability.Builder.{
  choose_validate_metadata, choose_expect_metadata, choose_restart_policy,
  LeanWorkerCapabilityBuilder, new_builder, choose_import_profile,
}
use lean_rs.Capability.Session.{session_key, capability_builder, restart_with, check_with}

module _ (Built : Type 0) (env : PlanEnv) (config : LeanWorkerImportPlanConfig) where
  -- The builder that opens the batch names the batch's session.
  abbrev pub NamesSession : LeanWorkerPlannedBatch → Type 0
  NamesSession b = session_key env (capability_builder {Built = Built} b) ≡ b.session_key

  -- The batch of a group, opened with a restart policy of its class and a metadata expectation.
  opened_as :
      BatchGroupKey
      → Option LeanWorkerPlanMetadataExpectation
      → Option LeanWorkerRestartPolicy
      → LeanWorkerCapabilityBuilder Built
  opened_as k x p = check_with x (
      restart_with p (
        choose_import_profile k.import_profile
          (new_builder k.project_root k.package_name k.lib_name k.imports)))

  expected_agrees :
      (k : BatchGroupKey) (export request : String) (expected : Option String)
      (p : Option LeanWorkerRestartPolicy)
      → k.restart_policy_class ≡ restart_policy_class p
      → session_key env (
          opened_as k (some (record { export = export; request = request; expected = expected })) p)
        ≡ expect_metadata env config
            (some (record { export = export; request = request; expected = expected }))
            (plain_session_key env k)
  unfolding opened_as session_key plain_session_key expect_metadata restart_policy_class
      choose_import_profile new_builder choose_validate_metadata choose_expect_metadata
      choose_restart_policy
  expected_agrees k export request none none h = rw h refl
  expected_agrees k export request none (some policy) h = rw h refl
  expected_agrees k export request (some e) none h = rw h refl
  expected_agrees k export request (some e) (some policy) h = rw h refl

  key_agrees :
      (k : BatchGroupKey) (x : Option LeanWorkerPlanMetadataExpectation)
      (p : Option LeanWorkerRestartPolicy)
      → k.restart_policy_class ≡ restart_policy_class p
      → session_key env (opened_as k x p) ≡ expect_metadata env config x (plain_session_key env k)
  unfolding opened_as session_key plain_session_key expect_metadata restart_policy_class
      choose_import_profile new_builder choose_validate_metadata choose_expect_metadata
      choose_restart_policy
  key_agrees k none none h = rw h refl
  key_agrees k none (some policy) h = rw h refl
  key_agrees k (some x) p h = expected_agrees k x.export x.request x.expected p h

  IsBatch-names : (b : LeanWorkerPlannedBatch) → IsBatch env config b → NamesSession b
  unfolding capability_builder opened_as session_key_of
  IsBatch-names b is =
      ap (λ x. session_key env (opened_as (key_of_batch env config b) x b.restart_policy))
        is.expectation
      ∙ ap
          (λ p.
            session_key env (opened_as (key_of_batch env config b) config.metadata_expectation p))
          is.policy
      ∙ key_agrees (key_of_batch env config b) config.metadata_expectation config.restart_policy
          refl
      ∙ sym is.session

  batches-name :
      (bs : List LeanWorkerPlannedBatch) → All (IsBatch env config) bs → All NamesSession bs
  batches-name [] h = tt
  batches-name (b ∷ bs) h = (IsBatch-names b h.0, batches-name bs h.1)

  -- Every batch that a plan holds.
  abbrev pub AllOf :
      (LeanWorkerPlannedBatch → Type 0) → PlanResult (List LeanWorkerPlannedBatch) → Type 0
  AllOf P (planned bs) = All P bs
  AllOf P (refused e) = Unit {0}

  Plans-name :
      (modules : List LeanWorkerModuleWork) (r : PlanResult (List LeanWorkerPlannedBatch))
      → Plans env config modules r
      → AllOf NamesSession r
  Plans-name modules r (partitioned bs ok perm is order) = batches-name bs is
  Plans-name modules r (stopped before w behind e at ok bad) = tt

  -- Every batch that plan_work_items plans carries the session key that its own capability builder asks the
  -- pool for, with or without a metadata expectation and a restart policy.
  pub capability_builder-session_key :
      (source_set : LeanModuleSetFingerprint) (modules : List LeanWorkerModuleWork)
      → AllOf NamesSession (plan_work_items env config modules source_set)
  capability_builder-session_key source_set modules =
      Plans-name modules (plan_work_items env config modules source_set)
        (plan_work_items-Plans env config source_set modules)
