-- ===== src/Planner/Plan/Partition.antt =====
-- What crates/lean-rs-worker-parent/src/planning.rs plans: the batches partition the work.
use Prim.Native.Nat.{Ordering}
use mathlib.Core.List.{Perm, append-nil}
use mathlib.Core.List.Perm
use lean_rs.Common.{
  String, ◌≡◌, refl, sym, ap, subst, ◌≤◌, some, List, [], ◌∷◌, ◌++◌, map, All, length, arith,
}
use lean_rs.Common.Order.{string_ord}
use lean_rs.Planner.Names.{LeanWorkerImportPlanError, PlanResult, planned, refused}
use lean_rs.Planner.Work.{
  LeanWorkerImportPlanConfig, LeanWorkerModuleWork, LeanModuleSetFingerprint, BatchGroupKey,
  LeanWorkerPlannedBatch, group_key_ord, restart_policy_class,
}
use lean_rs.Planner.Groups.{sort_by}
use lean_rs.Planner.Groups.Collected.{members, IsAscending}
use lean_rs.Planner.Groups.Sorted.{
  IsSorted, sort_by-perm, sort_by-IsSorted, sort_by-All, sort_by-inhabited,
}
use lean_rs.Planner.Plan.{
  PlanEnv, Groups, group_key, check_work, collect, batch_of, session_key_of, plan_work_items,
}
use lean_rs.Planner.Plan.Collect.{
  IsAccepted, IsGrouped, Collected, all_accepted, first_refused, collect-Collected,
}

-- The modules of all batches, batch after batch.
abbrev pub modules_of : List LeanWorkerPlannedBatch → List LeanWorkerModuleWork
modules_of [] = []
modules_of (b ∷ bs) = b.modules ++ modules_of bs

abbrev pub name_of : LeanWorkerModuleWork → String
name_of w = w.module_name

module _ (env : PlanEnv) (config : LeanWorkerImportPlanConfig) where
  -- The group key that the planner gives a batch.
  abbrev pub key_of_batch : LeanWorkerPlannedBatch → BatchGroupKey
  key_of_batch b = record {
    project_root = b.project_root;
    package_name = b.package_name;
    lib_name = b.lib_name;
    source_root = b.source_root;
    imports = b.imports;
    import_profile = b.import_profile;
    restart_policy_class = restart_policy_class config.restart_policy;
  }

  -- One batch serves modules of its source root and imports only, at least one, in the order of their
  -- names.
  pub record IsBatch (b : LeanWorkerPlannedBatch) : Type 0 where
    pub serves : All (λ w. group_key env config w ≡ key_of_batch b) b.modules
    pub inhabited : 1 ≤ length b.modules
    pub sorted : IsSorted name_of b.modules
    pub expectation : b.metadata_expectation ≡ config.metadata_expectation
    pub policy : b.restart_policy ≡ config.restart_policy
    pub session : b.session_key ≡ session_key_of env config (key_of_batch b)

  -- The batches stand in the order of their keys, and no two have one key.
  abbrev pub InKeyOrder : List LeanWorkerPlannedBatch → Type 0
  InKeyOrder [] = Unit {0}
  InKeyOrder (b ∷ bs) =
      All (λ c. group_key_ord.cmp (key_of_batch b) (key_of_batch c) ≡ Ordering.lt) bs
      × InKeyOrder bs

  pub data Plans (modules : List LeanWorkerModuleWork)
      : PlanResult (List LeanWorkerPlannedBatch) → Type 0 where
    partitioned :
        (batches : List LeanWorkerPlannedBatch)
        → All (IsAccepted env config) modules
        → Perm (modules_of batches) modules
        → All IsBatch batches
        → InKeyOrder batches
        → Plans modules (planned batches)
    stopped :
        (before : List LeanWorkerModuleWork) (w : LeanWorkerModuleWork)
        (behind : List LeanWorkerModuleWork) (e : LeanWorkerImportPlanError)
        → modules ≡ before ++ w ∷ behind
        → All (IsAccepted env config) before
        → check_work env config w ≡ some e
        → Plans modules (refused e)

  module _ (source_set : LeanModuleSetFingerprint) where
    batch : BatchGroupKey → List LeanWorkerModuleWork → LeanWorkerPlannedBatch
    batch k vs = batch_of env config source_set (k, vs)

    batch_key :
        (k : BatchGroupKey) (vs : List LeanWorkerModuleWork)
        → 1 ≤ length vs
        → All (λ w. group_key env config w ≡ k) vs
        → key_of_batch (batch k vs) ≡ k
    unfolding batch batch_of group_key
    batch_key k [] h all = absurd (omega arith)
    batch_key k (w ∷ vs) h all = subst (λ i. key_of_batch (batch i (w ∷ vs)) ≡ i) all.0 refl

    batch-IsBatch :
        (k : BatchGroupKey) (vs : List LeanWorkerModuleWork)
        → 1 ≤ length vs
        → All (λ w. group_key env config w ≡ k) vs
        → IsBatch (batch k vs)
    unfolding batch batch_of
    batch-IsBatch k vs h all =
        let e = batch_key k vs h all in
        record {
          serves =
              subst (λ i. All (λ w. group_key env config w ≡ i) (sort_by name_of vs)) (sym e)
                (sort_by-All name_of (λ w. group_key env config w ≡ k) vs all);
          inhabited = sort_by-inhabited name_of vs h;
          sorted = sort_by-IsSorted name_of vs;
          expectation = refl;
          policy = refl;
          session = ap (session_key_of env config) (sym e);
        }

    batches : Groups → List LeanWorkerPlannedBatch
    batches groups = map (batch_of env config source_set) groups

    batches-perm : (groups : Groups) → Perm (modules_of (batches groups)) (members groups)
    unfolding batches batch_of
    batches-perm [] = Perm.rfl
    batches-perm ((k, vs) ∷ rest) = Perm.append (sort_by-perm name_of vs) (batches-perm rest)

    batches-IsBatch :
        (groups : Groups)
        → All (λ g. 1 ≤ length g.1) groups
        → All (λ g. All (λ w. group_key env config w ≡ g.0) g.1) groups
        → All IsBatch (batches groups)
    unfolding batches batch
    batches-IsBatch [] h all = tt
    batches-IsBatch ((k, vs) ∷ rest) h all =
        (batch-IsBatch k vs h.0 all.0, batches-IsBatch rest h.1 all.1)

    later_keys :
        (k : BatchGroupKey) (groups : Groups)
        → All (λ g. 1 ≤ length g.1) groups
        → All (λ g. All (λ w. group_key env config w ≡ g.0) g.1) groups
        → All (λ g. group_key_ord.cmp k g.0 ≡ Ordering.lt) groups
        → All (λ c. group_key_ord.cmp k (key_of_batch c) ≡ Ordering.lt) (batches groups)
    unfolding batches batch
    later_keys k [] h all lt = tt
    later_keys k ((j, vs) ∷ rest) h all lt = (
      subst (λ i. group_key_ord.cmp k i ≡ Ordering.lt) (sym (batch_key j vs h.0 all.0)) lt.0,
      later_keys k rest h.1 all.1 lt.1,
    )

    batches-InKeyOrder :
        (groups : Groups)
        → All (λ g. 1 ≤ length g.1) groups
        → All (λ g. All (λ w. group_key env config w ≡ g.0) g.1) groups
        → IsAscending groups
        → InKeyOrder (batches groups)
    unfolding batches batch
    batches-InKeyOrder [] h all asc = tt
    batches-InKeyOrder ((k, vs) ∷ rest) h all asc = (
      subst (λ i. All (λ c. group_key_ord.cmp i (key_of_batch c) ≡ Ordering.lt) (batches rest))
          (sym (batch_key k vs h.0 all.0)) (later_keys k rest h.1 all.1 asc.0),
      batches-InKeyOrder rest h.1 all.1 asc.1,
    )

    no_groups : IsGrouped env config [] []
    no_groups = record { perm = Perm.rfl; uniform = tt; inhabited = tt; ascending = tt }

    planned-Plans :
        (modules : List LeanWorkerModuleWork) (groups : Groups)
        → All (IsAccepted env config) modules
        → IsGrouped env config (modules ++ []) groups
        → Plans modules (planned (batches groups))
    planned-Plans modules groups ok g =
        partitioned (batches groups) ok
          (Perm.trans (batches-perm groups)
            (subst (λ l. Perm (members groups) l) (append-nil modules) g.perm))
          (batches-IsBatch groups g.inhabited g.uniform)
          (batches-InKeyOrder groups g.inhabited g.uniform g.ascending)

    Collected-Plans :
        (modules : List LeanWorkerModuleWork) (r : PlanResult Groups)
        → Collected env config [] modules r
        → Plans modules
            (elim r [ planned groups ↦ planned (batches groups) | refused e ↦ refused e ])
    Collected-Plans modules r (all_accepted groups ok g) = planned-Plans modules groups ok g
    Collected-Plans modules r (first_refused before w behind e at ok bad) =
        stopped before w behind e at ok bad

    -- For every list of modules, plan_work_items refuses with the error of the first module whose name or
    -- source root is invalid, or plans batches whose modules together are a rearrangement of the list. Each
    -- batch has at least one module, only modules of its source root and imports, ordered by name, and the
    -- session key of its group; the batches are in the strict order of their group keys, so none is planned twice.
    pub plan_work_items-Plans :
        (modules : List LeanWorkerModuleWork)
        → Plans modules (plan_work_items env config modules source_set)
    unfolding plan_work_items batches
    plan_work_items-Plans modules =
        Collected-Plans modules (collect env config [] modules)
          (collect-Collected env config [] modules [] no_groups)
