-- ===== src/Supervisor/Session.antt =====
-- crates/lean-rs-worker-parent/src/session.rs: `LeanWorkerSessionConfig`, the parent's key of an
-- imported environment, with its derived equality. Two paths are equal when their components are, as
-- in `/p` and `/p/`, so a path is modelled by its components; the text that one was written as is no
-- function of it, and stands as an argument where the source takes it (`to_string_lossy`).
use lean_rs.Common.{String, ◌≡◌, refl, ◌↔◌, Bool, true, false, ◌&&◌, Option, List, arith}
use lean_rs.Common.Equality.{=?_iff, Eq, ◌=?◌, string_eq, option_eq, list_eq}
use lean_rs.Protocol.Message.{
  LeanWorkerSessionImportProfile, exported_public, server, private, full_private_compat,
}

-- `std::path::Component`, of a path without a prefix.
pub data Component : Type 0 where
  root_dir cur_dir parent_dir : Component
  normal : String → Component

abbrev component_beq : Component → Component → Bool
component_beq root_dir root_dir = true
component_beq cur_dir cur_dir = true
component_beq parent_dir parent_dir = true
component_beq (normal a) (normal b) = a =? b
component_beq _ _ = false

pub component_beq_iff : (a b : Component) → (component_beq a b ≡ true) ↔ (a ≡ b)
component_beq_iff (normal a) (normal b) = ground (arith, =?_iff a b)
component_beq_iff a b = ground arith

instance abbrev pub component_eq : Eq Component
component_eq = record { beq = component_beq; beq_iff = component_beq_iff }

abbrev pub PathBuf : Type 0
PathBuf = List Component

pub data LeanWorkerSessionMode : Type 0 where
  capability : String → String → Option PathBuf → LeanWorkerSessionMode
  shims_only : LeanWorkerSessionMode

pub record LeanWorkerSessionConfig : Type 0 where
  pub project_root : PathBuf
  pub mode : LeanWorkerSessionMode
  pub imports : List String
  pub import_profile : LeanWorkerSessionImportProfile

abbrev mode_beq : LeanWorkerSessionMode → LeanWorkerSessionMode → Bool
mode_beq shims_only shims_only = true
mode_beq (capability p l m) (capability q k n) = (p =? q) && (l =? k) && (m =? n)
mode_beq _ _ = false

pub mode_beq_iff : (a b : LeanWorkerSessionMode) → (mode_beq a b ≡ true) ↔ (a ≡ b)
mode_beq_iff shims_only shims_only = (λ h. refl, λ h. refl)
mode_beq_iff shims_only (capability q k n) = (λ h. cc, λ h. cc)
mode_beq_iff (capability p l m) shims_only = (λ h. cc, λ h. cc)
mode_beq_iff (capability p l m) (capability q k n) =
    ground (arith, =?_iff p q, =?_iff l k, =?_iff m n)

instance abbrev pub mode_eq : Eq LeanWorkerSessionMode
mode_eq = record { beq = mode_beq; beq_iff = mode_beq_iff }

abbrev profile_beq : LeanWorkerSessionImportProfile → LeanWorkerSessionImportProfile → Bool
profile_beq exported_public exported_public = true
profile_beq server server = true
profile_beq private private = true
profile_beq full_private_compat full_private_compat = true
profile_beq _ _ = false

pub profile_beq_iff : (a b : LeanWorkerSessionImportProfile) → (profile_beq a b ≡ true) ↔ (a ≡ b)
profile_beq_iff a b = ground arith

instance abbrev pub profile_eq : Eq LeanWorkerSessionImportProfile
profile_eq = record { beq = profile_beq; beq_iff = profile_beq_iff }

abbrev config_beq : LeanWorkerSessionConfig → LeanWorkerSessionConfig → Bool
config_beq a b =
    (a.project_root =? b.project_root)
    && (a.mode =? b.mode)
    && (a.imports =? b.imports)
    && (a.import_profile =? b.import_profile)

pub config_beq_iff : (a b : LeanWorkerSessionConfig) → (config_beq a b ≡ true) ↔ (a ≡ b)
config_beq_iff a b = ground (
  arith,
  =?_iff a.project_root b.project_root,
  mode_beq_iff a.mode b.mode,
  =?_iff a.imports b.imports,
  profile_beq_iff a.import_profile b.import_profile,
)

instance abbrev pub session_config_eq : Eq LeanWorkerSessionConfig
session_config_eq = record { beq = config_beq; beq_iff = config_beq_iff }
