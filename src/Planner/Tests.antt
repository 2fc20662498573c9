-- ===== src/Planner/Tests.antt =====
-- A concrete configuration and module list, and the planner's theorems at them.
use lean_rs.Planner.Samples.{ascii, env, config, init_only, work, source_set, three, discover}
use lean_rs.Common.{String, ◌≡◌, ◌↔◌, refl, none, some, List, [], ◌∷◌}
use lean_rs.Planner.Names.{
  PlanResult, planned, refused, invalid_module_name, empty_component, bad_first,
  validate_module_name,
}
use lean_rs.Planner.Names.Accepted.{IsModuleName, validate_module_name-accepts}
use lean_rs.Planner.Config.{plan_base_imports, new_plan_config}
use lean_rs.Planner.Work.{LeanWorkerModuleWork, LeanWorkerPlannedBatch}
use lean_rs.Planner.Plan.{plan_work_items, plan_lake_project, session_key_of, group_key}
use lean_rs.Planner.Plan.Partition.{Plans, plan_work_items-Plans}
use lean_rs.Planner.Plan.Lake.{LakePlan, plan_lake_project-LakePlan, session_key_of-shared}

abbrev names_of : PlanResult (List LeanWorkerPlannedBatch) → List (List String)
names_of (refused e) = []
names_of (planned []) = []
names_of (planned (b ∷ bs)) = go b.modules ∷ names_of (planned bs)
  where
    go : List LeanWorkerModuleWork → List String
    go [] = []
    go (w ∷ ws) = w.module_name ∷ go ws

two_batches :
    names_of (plan_work_items env config three source_set)
    ≡ ("Demo.A" ∷ "Demo.B" ∷ []) ∷ ("Tools.Run" ∷ []) ∷ []
unfolding plan_work_items plan_base_imports new_plan_config
two_batches = refl

accepts_a_name : validate_module_name ascii "Demo.A'1" ≡ none
unfolding validate_module_name
accepts_a_name = refl

refuses_two_dots :
    validate_module_name ascii "Demo..A" ≡ some (invalid_module_name "Demo..A" empty_component)
unfolding validate_module_name
refuses_two_dots = refl

refuses_a_digit :
    validate_module_name ascii "Demo.1" ≡ some (invalid_module_name "Demo.1" bad_first)
unfolding validate_module_name
refuses_a_digit = refl

plan_work_items-Plans_example : Plans env config three (plan_work_items env config three source_set)
plan_work_items-Plans_example = plan_work_items-Plans env config source_set three

plan_lake_project-LakePlan_example :
    LakePlan env config (discover "/project" none) (plan_lake_project env config discover)
plan_lake_project-LakePlan_example = plan_lake_project-LakePlan env config discover

session_key_of-shared_example :
    (session_key_of env config (group_key env config (work "Demo.A" "Demo" init_only))
      ≡ session_key_of env config (group_key env config (work "Tools.Run" "Tools" init_only)))
    ↔ (init_only ≡ init_only)
session_key_of-shared_example =
    session_key_of-shared env config (work "Demo.A" "Demo" init_only)
      (work "Tools.Run" "Tools" init_only)

validate_module_name-accepts_example :
    (validate_module_name ascii "Demo.A" ≡ none) ↔ IsModuleName ascii "Demo.A"
validate_module_name-accepts_example = validate_module_name-accepts ascii refl refl "Demo.A"
