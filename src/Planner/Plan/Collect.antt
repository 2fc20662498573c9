-- ===== src/Planner/Plan/Collect.antt =====
-- The loop of crates/lean-rs-worker-parent/src/planning.rs that groups the modules: what its groups are,
-- and where it stops.
use mathlib.Core.List.{Perm, perm_middle}
use mathlib.Core.List.Perm
use lean_rs.Common.{
  ◌≡◌, refl, ap, ◌≤◌, inl, inr, none, some, List, [], ◌∷◌, ◌++◌, All, length, Option-cases,
  length-append, arith,
}
use lean_rs.Planner.Names.{LeanWorkerImportPlanError, PlanResult, planned, refused}
use lean_rs.Planner.Work.{
  LeanWorkerImportPlanConfig, LeanWorkerModuleWork, BatchGroupKey, group_key_ord,
}
use lean_rs.Planner.Groups.{entry_push}
use lean_rs.Planner.Groups.Collected.{
  members, IsAscending, entry_push-perm, entry_push-All, entry_push-IsAscending,
}
use lean_rs.Planner.Plan.{PlanEnv, Groups, group_key, check_work, collect}

module _ (env : PlanEnv) (config : LeanWorkerImportPlanConfig) where
  -- Both names of the module are accepted.
  abbrev pub IsAccepted : LeanWorkerModuleWork → Type 0
  IsAccepted w = check_work env config w ≡ none

  -- The groups of the modules `done`.
  pub record IsGrouped (done : List LeanWorkerModuleWork) (groups : Groups) : Type 0 where
    pub perm : Perm (members groups) done
    pub uniform : All (λ g. All (λ w. group_key env config w ≡ g.0) g.1) groups
    pub inhabited : All (λ g. 1 ≤ length g.1) groups
    pub ascending : IsAscending groups

  pub data Collected (done modules : List LeanWorkerModuleWork) : PlanResult Groups → Type 0 where
    all_accepted :
        (groups : Groups)
        → All IsAccepted modules
        → IsGrouped (modules ++ done) groups
        → Collected done modules (planned groups)
    first_refused :
        (before : List LeanWorkerModuleWork) (w : LeanWorkerModuleWork)
        (behind : List LeanWorkerModuleWork) (e : LeanWorkerImportPlanError)
        → modules ≡ before ++ w ∷ behind
        → All IsAccepted before
        → check_work env config w ≡ some e
        → Collected done modules (refused e)

  All-snoc :
      (k : BatchGroupKey) (w : LeanWorkerModuleWork) (vs : List LeanWorkerModuleWork)
      → group_key env config w ≡ k
      → All (λ v. group_key env config v ≡ k) vs
      → All (λ v. group_key env config v ≡ k) (vs ++ w ∷ [])
  All-snoc k w [] h all = (h, tt)
  All-snoc k w (v ∷ vs) h all = (all.0, All-snoc k w vs h all.1)

  entry_push-IsGrouped :
      (done : List LeanWorkerModuleWork) (w : LeanWorkerModuleWork) (groups : Groups)
      → IsGrouped done groups
      → IsGrouped (w ∷ done) (entry_push (group_key env config w) w groups)
  entry_push-IsGrouped done w groups g =
      let k = group_key env config w in
      record {
        perm = Perm.trans (entry_push-perm k w groups) (Perm.cons w g.perm);
        uniform =
            entry_push-All (λ i vs. All (λ v. group_key env config v ≡ i) vs) k w (refl, tt)
              (λ vs. All-snoc k w vs refl) groups g.uniform;
        inhabited =
            entry_push-All (λ i vs. 1 ≤ length vs) k w (omega arith)
              (λ vs h. omega (arith, length-append vs (w ∷ []))) groups g.inhabited;
        ascending = entry_push-IsAscending k w groups g.ascending;
      }

  IsGrouped-later :
      (done rest : List LeanWorkerModuleWork) (w : LeanWorkerModuleWork) (groups : Groups)
      → IsGrouped (rest ++ w ∷ done) groups
      → IsGrouped (w ∷ rest ++ done) groups
  IsGrouped-later done rest w groups g = record {
    perm = Perm.trans g.perm (perm_middle rest done);
    uniform = g.uniform;
    inhabited = g.inhabited;
    ascending = g.ascending;
  }

  collect_later :
      (done rest : List LeanWorkerModuleWork) (w : LeanWorkerModuleWork) (r : PlanResult Groups)
      → IsAccepted w
      → Collected (w ∷ done) rest r
      → Collected done (w ∷ rest) r
  collect_later done rest w r ok (all_accepted groups all g) =
      all_accepted groups (ok, all) (IsGrouped-later done rest w groups g)
  collect_later done rest w r ok (first_refused before v behind e at all no_v) =
      first_refused (w ∷ before) v behind e (ap (◌∷◌ w) at) (ok, all) no_v

  pub collect-Collected :
      (done modules : List LeanWorkerModuleWork) (groups : Groups)
      → IsGrouped done groups
      → Collected done modules (collect env config groups modules)
  unfolding collect
  collect-Collected done [] groups g = all_accepted groups tt g
  collect-Collected done (w ∷ rest) groups g = elim (Option-cases (check_work env config w)) [
    | inl ok ↦
        rw (ok, collect)
          (collect_later done rest w
            (collect env config (entry_push (group_key env config w) w groups) rest) ok
            (collect-Collected (w ∷ done) rest (entry_push (group_key env config w) w groups)
              (entry_push-IsGrouped done w groups g)))
    | inr (e, bad) ↦ rw (bad, collect) (first_refused [] w rest e refl tt bad)
  ]
