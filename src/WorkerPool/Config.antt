-- ===== src/WorkerPool/Config.antt =====
-- crates/lean-rs-worker-parent/src/pool.rs: `LeanWorkerSessionKey` with its derived equality, and
-- `LeanWorkerPoolConfig` with its builder methods. A JSON value and a toolchain fingerprint are their
-- texts.
use lean_rs.Common.{
  ℕ, String, refl, subst, ◌≡◌, ◌↔◌, max, Bool, true, false, ◌&&◌, Option, none, some, List, arith,
}
use lean_rs.Common.Equality.{=?_iff, beq_refl, beq_sound, Eq, ◌=?◌, string_eq, option_eq, list_eq}
use lean_rs.Protocol.Message.{LeanWorkerSessionImportProfile}
use lean_rs.Supervisor.Session.{profile_eq}

pub data LeanWorkerRestartPolicyClass : Type 0 where
  default custom : LeanWorkerRestartPolicyClass

pub record LeanWorkerMetadataExpectationKey : Type 0 where
  pub export : String
  pub request : String
  pub expected : Option String

pub record LeanWorkerSessionKey : Type 0 where
  pub project_root : String
  pub import_workspace_root : String
  pub built_manifest_path : Option String
  pub package_name : String
  pub lib_name : String
  pub imports : List String
  pub import_profile : LeanWorkerSessionImportProfile
  pub metadata_expectation : Option LeanWorkerMetadataExpectationKey
  pub toolchain_fingerprint : String
  pub restart_policy_class : LeanWorkerRestartPolicyClass

abbrev class_beq : LeanWorkerRestartPolicyClass → LeanWorkerRestartPolicyClass → Bool
class_beq default default = true
class_beq custom custom = true
class_beq _ _ = false

pub class_beq_iff : (a b : LeanWorkerRestartPolicyClass) → (class_beq a b ≡ true) ↔ (a ≡ b)
class_beq_iff a b = ground arith

abbrev expectation_beq : LeanWorkerMetadataExpectationKey → LeanWorkerMetadataExpectationKey → Bool
expectation_beq a b =
    (a.export =? b.export) && (a.request =? b.request) && (a.expected =? b.expected)

pub expectation_beq_iff :
    (a b : LeanWorkerMetadataExpectationKey) → (expectation_beq a b ≡ true) ↔ (a ≡ b)
expectation_beq_iff a b =
    ground
      (arith, =?_iff a.export b.export, =?_iff a.request b.request, =?_iff a.expected b.expected)

instance abbrev pub expectation_eq : Eq LeanWorkerMetadataExpectationKey
expectation_eq = record { beq = expectation_beq; beq_iff = expectation_beq_iff }

roots_beq : LeanWorkerSessionKey → LeanWorkerSessionKey → Bool
roots_beq a b =
    (a.project_root =? b.project_root)
    && (a.import_workspace_root =? b.import_workspace_root)
    && (a.built_manifest_path =? b.built_manifest_path)

library_beq : LeanWorkerSessionKey → LeanWorkerSessionKey → Bool
library_beq a b =
    (a.package_name =? b.package_name) && (a.lib_name =? b.lib_name) && (a.imports =? b.imports)

policy_beq : LeanWorkerSessionKey → LeanWorkerSessionKey → Bool
policy_beq a b =
    (a.metadata_expectation =? b.metadata_expectation)
    && (a.toolchain_fingerprint =? b.toolchain_fingerprint)
    && class_beq a.restart_policy_class b.restart_policy_class

-- `LeanWorkerSessionKey::eq`, which is derived: all ten fields are equal.
unfoldable pub key_beq : LeanWorkerSessionKey → LeanWorkerSessionKey → Bool
unfolding roots_beq library_beq policy_beq
key_beq a b =
    roots_beq a b && library_beq a b && (a.import_profile =? b.import_profile) && policy_beq a b

roots_beq-true :
    (a b : LeanWorkerSessionKey)
    → roots_beq a b ≡ true
    → (a.project_root ≡ b.project_root)
      × (a.import_workspace_root ≡ b.import_workspace_root)
      × (a.built_manifest_path ≡ b.built_manifest_path)
unfolding roots_beq
roots_beq-true a b h = ground (
  arith,
  =?_iff a.project_root b.project_root,
  =?_iff a.import_workspace_root b.import_workspace_root,
  =?_iff a.built_manifest_path b.built_manifest_path,
)

library_beq-true :
    (a b : LeanWorkerSessionKey)
    → library_beq a b ≡ true
    → (a.package_name ≡ b.package_name) × (a.lib_name ≡ b.lib_name) × (a.imports ≡ b.imports)
unfolding library_beq
library_beq-true a b h = ground (
  arith,
  =?_iff a.package_name b.package_name,
  =?_iff a.lib_name b.lib_name,
  =?_iff a.imports b.imports,
)

policy_beq-true :
    (a b : LeanWorkerSessionKey)
    → policy_beq a b ≡ true
    → (a.metadata_expectation ≡ b.metadata_expectation)
      × (a.toolchain_fingerprint ≡ b.toolchain_fingerprint)
      × (a.restart_policy_class ≡ b.restart_policy_class)
unfolding policy_beq
policy_beq-true a b h = ground (
  arith,
  =?_iff a.metadata_expectation b.metadata_expectation,
  =?_iff a.toolchain_fingerprint b.toolchain_fingerprint,
  class_beq_iff a.restart_policy_class b.restart_policy_class,
)

all_true :
    (x y z u : Bool) → (x && y && z && u) ≡ true → (x ≡ true) × (y ≡ true) × (z ≡ true) × (u ≡ true)
all_true x y z u h = ground arith

key_beq_sound : (a b : LeanWorkerSessionKey) → key_beq a b ≡ true → a ≡ b
unfolding key_beq
key_beq_sound a b h =
    let (r, l, p, q) =
      all_true (roots_beq a b) (library_beq a b) (a.import_profile =? b.import_profile)
        (policy_beq a b) h in
    let (r1, r2, r3) = roots_beq-true a b r in
    let (l1, l2, l3) = library_beq-true a b l in
    let (q1, q2, q3) = policy_beq-true a b q in
    cc (r1, r2, r3, l1, l2, l3, beq_sound a.import_profile b.import_profile p, q1, q2, q3)

key_beq_refl : (a : LeanWorkerSessionKey) → key_beq a a ≡ true
unfolding key_beq roots_beq library_beq policy_beq
key_beq_refl a =
    rw
      (
        beq_refl a.project_root,
        beq_refl a.import_workspace_root,
        beq_refl a.built_manifest_path,
        beq_refl a.package_name,
        beq_refl a.lib_name,
        beq_refl a.imports,
        beq_refl a.import_profile,
        beq_refl a.metadata_expectation,
        beq_refl a.toolchain_fingerprint,
        (class_beq_iff a.restart_policy_class a.restart_policy_class).1 refl,
      )
      refl

pub key_beq_iff : (a b : LeanWorkerSessionKey) → (key_beq a b ≡ true) ↔ (a ≡ b)
key_beq_iff a b = (key_beq_sound a b, λ e. subst (λ c. key_beq a c ≡ true) e (key_beq_refl a))

instance abbrev pub session_key_eq : Eq LeanWorkerSessionKey
session_key_eq = record { beq = key_beq; beq_iff = key_beq_iff }

pub record LeanWorkerPoolConfig : Type 0 where
  pub max_workers : ℕ
  pub max_total_child_rss_kib : Option ℕ
  pub per_worker_rss_ceiling_kib : Option ℕ
  pub idle_cycle_after : Option ℕ
  pub queue_wait_timeout : ℕ

-- `LeanWorkerPoolConfig::new`.
unfoldable pub new_config : ℕ → LeanWorkerPoolConfig
new_config max_workers = record {
  max_workers = max max_workers 1;
  max_total_child_rss_kib = none;
  per_worker_rss_ceiling_kib = none;
  idle_cycle_after = none;
  queue_wait_timeout = 0;
}

unfoldable pub with_max_total_child_rss_kib : ℕ → LeanWorkerPoolConfig → LeanWorkerPoolConfig
with_max_total_child_rss_kib limit c = record c { max_total_child_rss_kib = some (max limit 1) }

unfoldable pub with_per_worker_rss_ceiling_kib : ℕ → LeanWorkerPoolConfig → LeanWorkerPoolConfig
with_per_worker_rss_ceiling_kib limit c = record c {
  per_worker_rss_ceiling_kib = some (max limit 1);
}

unfoldable pub with_idle_cycle_after : ℕ → LeanWorkerPoolConfig → LeanWorkerPoolConfig
with_idle_cycle_after limit c = record c { idle_cycle_after = some limit }

unfoldable pub with_queue_wait_timeout : ℕ → LeanWorkerPoolConfig → LeanWorkerPoolConfig
with_queue_wait_timeout timeout c = record c { queue_wait_timeout = timeout }
