-- ===== src/Planner/Plan/Lake.antt =====
-- crates/lean-rs-worker-parent/src/planning.rs: a plan of a discovered project, and which batches can run in
-- one session.
use lean_rs.Common.{
  String, ◌≡◌, ◌↔◌, refl, sym, ap, ◌∙◌, ◌⊎◌, inl, inr, Option, none, some, List, map, true, false,
  Bool-cases,
}
use lean_rs.Common.Equality.{string_eq}
use lean_rs.Common.Unique.{contains}
use lean_rs.Planner.Names.{PlanResult, refused, module_discovery, unresolved_capability_target}
use lean_rs.Planner.Work.{
  LeanWorkerImportPlanConfig, LeanWorkerModuleWork, LeanLakeProjectModules, LeanWorkerPlannedBatch,
  LeanWorkerPlanMetadataExpectation, from_descriptor,
}
use lean_rs.WorkerPool.Config.{LeanWorkerSessionKey}
use lean_rs.Planner.Plan.{
  PlanEnv, group_key, expect_metadata, session_key_of, plan_discovered, plan_answer,
  plain_session_key, plan_lake_project,
}
use lean_rs.Planner.Plan.Partition.{Plans, plan_work_items-Plans}

module _ (env : PlanEnv) (config : LeanWorkerImportPlanConfig) where
  -- The work of a discovered project: every module, with the configured imports.
  abbrev pub work_of : LeanLakeProjectModules → List LeanWorkerModuleWork
  work_of d = map (λ m. from_descriptor m config.base_imports) d.modules

  pub data LakePlan (answer : LeanLakeProjectModules ⊎ String)
      : PlanResult (List LeanWorkerPlannedBatch) → Type 0 where
    not_discovered :
        (diagnostic : String)
        → answer ≡ inr diagnostic
        → LakePlan answer (refused (module_discovery diagnostic))
    undeclared :
        (d : LeanLakeProjectModules)
        → answer ≡ inl d
        → contains config.lib_name d.declared_lean_libs ≡ false
        → LakePlan answer (refused (unresolved_capability_target d.project_root config.lib_name))
    declared :
        (d : LeanLakeProjectModules) (r : PlanResult (List LeanWorkerPlannedBatch))
        → answer ≡ inl d
        → contains config.lib_name d.declared_lean_libs ≡ true
        → Plans env config (work_of d) r
        → LakePlan answer r

  plan_discovered-Plans :
      (d : LeanLakeProjectModules) → Plans env config (work_of d) (plan_discovered env config d)
  unfolding plan_discovered
  plan_discovered-Plans d = plan_work_items-Plans env config d.fingerprint (work_of d)

  lake_cases :
      (answer : LeanLakeProjectModules ⊎ String) → LakePlan answer (plan_answer env config answer)
  unfolding plan_answer
  lake_cases (inl d) = elim (Bool-cases (contains config.lib_name d.declared_lean_libs)) [
    | inl found ↦
        rw (found, plan_answer)
          (declared d (plan_discovered env config d) refl found (plan_discovered-Plans d))
    | inr other ↦ rw (other, plan_answer) (undeclared d refl other)
  ]
  lake_cases (inr diagnostic) = not_discovered diagnostic refl

  -- For every answer of the discovery, plan_lake_project refuses with its diagnostic, refuses a library
  -- that the project does not declare, or plans the work of all discovered modules as plan_work_items does.
  pub plan_lake_project-LakePlan :
      (discover : String → Option (List String) → LeanLakeProjectModules ⊎ String)
      → LakePlan
          (discover config.project_root config.source_roots)
          (plan_lake_project env config discover)
  unfolding plan_lake_project
  plan_lake_project-LakePlan discover =
      lake_cases (discover config.project_root config.source_roots)

  expected_imports :
      (x : Option LeanWorkerPlanMetadataExpectation) (k : LeanWorkerSessionKey)
      → (expect_metadata env config x k).imports ≡ k.imports
  unfolding expect_metadata
  expected_imports none k = refl
  expected_imports (some x) k = refl

  same_imports :
      (v w : LeanWorkerModuleWork)
      → session_key_of env config (group_key env config v)
        ≡ session_key_of env config (group_key env config w)
      → v.imports ≡ w.imports
  unfolding session_key_of group_key
  same_imports v w h =
      sym (
        expected_imports config.metadata_expectation
          (plain_session_key env (group_key env config v)))
      ∙ ap (λ k. k.imports) h
      ∙ expected_imports config.metadata_expectation
          (plain_session_key env (group_key env config w))

  same_session :
      (v w : LeanWorkerModuleWork)
      → v.imports ≡ w.imports
      → session_key_of env config (group_key env config v)
        ≡ session_key_of env config (group_key env config w)
  unfolding session_key_of group_key
  same_session v w h = rw h refl

  -- The planner gives two modules one session key exactly where their imports are the same: the source
  -- root, which tells batches apart, is no part of a session.
  pub session_key_of-shared :
      (v w : LeanWorkerModuleWork)
      → (session_key_of env config (group_key env config v)
          ≡ session_key_of env config (group_key env config w))
        ↔ (v.imports ≡ w.imports)
  session_key_of-shared v w = (same_imports v w, same_session v w)
