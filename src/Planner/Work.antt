-- ===== src/Planner/Work.antt =====
-- crates/lean-rs-worker-parent/src/planning.rs: the configuration of a plan, module work items, batches
-- and their group key with its derived order; pool.rs: the builder of a session key. A path is its
-- text, a JSON value and a capability's metadata are their texts.
use Prim.Native.String.{◌++◌ as ◌+++◌}
use lean_rs.Common.{
  ℕ, ℕ, String, ◌≡◌, Bool, ◌&&◌, if◌then◌else◌, Option, none, some, List, [], ◌∷◌, map, arith,
}
use lean_rs.Common.Equality.{◌=?◌, option_eq, nat_eq}
use lean_rs.Common.Order.{Ord, nat_ord, string_ord, list_ord, pair_ord, pulled_ord}
use lean_rs.Protocol.Message.{
  LeanWorkerSessionImportProfile, exported_public, server, private, full_private_compat,
}
use lean_rs.Supervisor.Policy.{LeanWorkerRestartPolicy, disabled}
use lean_rs.WorkerPool.Config.{LeanWorkerRestartPolicyClass, default, custom, LeanWorkerSessionKey}

pub record LeanWorkerPlanMetadataExpectation : Type 0 where
  pub export : String
  pub request : String
  pub expected : Option String

pub record LeanWorkerImportPlanConfig : Type 0 where
  pub project_root : String
  pub package_name : String
  pub lib_name : String
  pub source_roots : Option (List String)
  pub base_imports : List String
  pub import_profile : LeanWorkerSessionImportProfile
  pub metadata_expectation : Option LeanWorkerPlanMetadataExpectation
  pub restart_policy : Option LeanWorkerRestartPolicy

pub record LeanWorkerModuleWork : Type 0 where
  pub module_name : String
  pub path : String
  pub source_root : String
  pub imports : List String

-- Of crates/lean-toolchain/src/modules.rs: a discovered module, and the facts of a source set.
pub record LeanModuleDescriptor : Type 0 where
  pub module_name : String
  pub path : String
  pub source_root : String

pub record LeanModuleSetFingerprint : Type 0 where
  pub toolchain : String
  pub lakefile_sha256 : String
  pub manifest_sha256 : Option String
  pub source_count : ℕ
  pub source_max_mtime_ns : ℕ

pub record LeanLakeProjectModules : Type 0 where
  pub requested_root : String
  pub project_root : String
  pub lakefile : String
  pub declared_lean_libs : List String
  pub module_roots : List String
  pub selected_roots : List String
  pub modules : List LeanModuleDescriptor
  pub fingerprint : LeanModuleSetFingerprint

unfoldable pub from_descriptor : LeanModuleDescriptor → List String → LeanWorkerModuleWork
from_descriptor descriptor imports = record {
  module_name = descriptor.module_name;
  path = descriptor.path;
  source_root = descriptor.source_root;
  imports = imports;
}

pub record BatchGroupKey : Type 0 where
  pub project_root : String
  pub package_name : String
  pub lib_name : String
  pub source_root : String
  pub imports : List String
  pub import_profile : LeanWorkerSessionImportProfile
  pub restart_policy_class : LeanWorkerRestartPolicyClass

-- The derived order of an enumeration is that of its variants.
abbrev pub profile_rank : LeanWorkerSessionImportProfile → ℕ
profile_rank exported_public = 0
profile_rank server = 1
profile_rank private = 2
profile_rank full_private_compat = 3

abbrev pub class_rank : LeanWorkerRestartPolicyClass → ℕ
class_rank default = 0
class_rank custom = 1

pub profile_rank_inj :
    (a b : LeanWorkerSessionImportProfile) → profile_rank a ≡ profile_rank b → a ≡ b
profile_rank_inj a b h = ground arith

pub class_rank_inj : (a b : LeanWorkerRestartPolicyClass) → class_rank a ≡ class_rank b → a ≡ b
class_rank_inj a b h = ground arith

abbrev pub KeyFields : Type 0
KeyFields =
    String
    × (String
        × (String
            × (String
                × (List String × (LeanWorkerSessionImportProfile × LeanWorkerRestartPolicyClass)))))

abbrev pub fields_of : BatchGroupKey → KeyFields
fields_of k = (
  k.project_root,
  (
    k.package_name,
    (k.lib_name, (k.source_root, (k.imports, (k.import_profile, k.restart_policy_class)))),
  ),
)

pub fields_of_inj : (a b : BatchGroupKey) → fields_of a ≡ fields_of b → a ≡ b
fields_of_inj a b h = cc

abbrev pub imports_ord : Ord (List String)
imports_ord = list_ord

-- `BatchGroupKey::cmp`, which is derived: the fields in their order.
instance abbrev pub group_key_ord : Ord BatchGroupKey
group_key_ord = pulled_ord fields_of fields_of_inj (
    pair_ord string_ord (
      pair_ord string_ord (
        pair_ord string_ord (
          pair_ord string_ord (
            pair_ord imports_ord (
              pair_ord (pulled_ord profile_rank profile_rank_inj nat_ord)
                (pulled_ord class_rank class_rank_inj nat_ord)))))))

-- `LeanWorkerRestartPolicy::eq`, which is derived.
abbrev policy_beq : LeanWorkerRestartPolicy → LeanWorkerRestartPolicy → Bool
policy_beq a b =
    (a.max_requests =? b.max_requests)
    && (a.max_imports =? b.max_imports)
    && (a.max_import_residue_bytes =? b.max_import_residue_bytes)
    && (a.max_rss_kib =? b.max_rss_kib)
    && (a.idle_restart_after =? b.idle_restart_after)
    && (a.restart_intensity.max_restarts =? b.restart_intensity.max_restarts)
    && (a.restart_intensity.window =? b.restart_intensity.window)

unfoldable pub restart_policy_class : Option LeanWorkerRestartPolicy → LeanWorkerRestartPolicyClass
restart_policy_class none = default
restart_policy_class (some policy) = if policy_beq policy disabled then default else custom

pub record LeanWorkerBatchFingerprint : Type 0 where
  pub toolchain : String
  pub source_set : LeanModuleSetFingerprint
  pub batch_key : String

pub record LeanWorkerPlannedBatch : Type 0 where
  pub session_key : LeanWorkerSessionKey
  pub project_root : String
  pub package_name : String
  pub lib_name : String
  pub source_root : String
  pub imports : List String
  pub import_profile : LeanWorkerSessionImportProfile
  pub modules : List LeanWorkerModuleWork
  pub fingerprint : LeanWorkerBatchFingerprint
  pub metadata_expectation : Option LeanWorkerPlanMetadataExpectation
  pub restart_policy : Option LeanWorkerRestartPolicy

-- `LeanWorkerSessionImportProfile::label`.
abbrev pub label : LeanWorkerSessionImportProfile → String
label exported_public = "exported-public"
label server = "server"
label private = "private"
label full_private_compat = "full-private-compat"

abbrev class_debug : LeanWorkerRestartPolicyClass → String
class_debug default = "Default"
class_debug custom = "Custom"

-- `v.join(",")`.
unfoldable pub join_commas : List String → String
join_commas [] = ""
join_commas (x ∷ []) = x
join_commas (x ∷ y ∷ xs) = x +++ "," +++ join_commas (y ∷ xs)

unfoldable pub batch_key_string : BatchGroupKey → List LeanWorkerModuleWork → String
unfolding join_commas
batch_key_string key modules =
    "project="
    +++ key.project_root
    +++ ";package="
    +++ key.package_name
    +++ ";lib="
    +++ key.lib_name
    +++ ";source_root="
    +++ key.source_root
    +++ ";imports="
    +++ join_commas key.imports
    +++ ";profile="
    +++ label key.import_profile
    +++ ";policy="
    +++ class_debug key.restart_policy_class
    +++ ";modules="
    +++ join_commas (map (λ w. w.module_name) modules)
