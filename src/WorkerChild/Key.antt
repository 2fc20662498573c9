-- ===== src/WorkerChild/Key.antt =====
-- What an `OpenHostSession` request says of the environment it wants: `HostSessionMode` of
-- crates/lean-rs-worker-protocol/src/protocol.rs, the `HostSessionKey` under which
-- crates/lean-rs-worker-child/src/child.rs holds a session, and how the parent fills the request from
-- its own configuration in crates/lean-rs-worker-parent/src/supervisor.rs. The child compares texts.
use lean_rs.Common.{String, ◌≡◌, refl, ◌↔◌, Bool, true, false, ◌&&◌, Option, List, arith}
use lean_rs.Common.Options
use lean_rs.Common.Equality.{=?_iff, Eq, ◌=?◌, string_eq, option_eq, list_eq}
use lean_rs.Protocol.Message.{LeanWorkerSessionImportProfile}
use lean_rs.Supervisor.Session.{
  PathBuf, LeanWorkerSessionMode, LeanWorkerSessionConfig, profile_eq, profile_beq_iff,
}

-- The package, the library's name and the text of the manifest's path, or the shims alone.
pub data HostSessionMode : Type 0 where
  capability : String → String → Option String → HostSessionMode
  shims_only : HostSessionMode

abbrev mode_beq : HostSessionMode → HostSessionMode → Bool
mode_beq shims_only shims_only = true
mode_beq (capability p l m) (capability q k n) = (p =? q) && (l =? k) && (m =? n)
mode_beq _ _ = false

pub mode_beq_iff : (a b : HostSessionMode) → (mode_beq a b ≡ true) ↔ (a ≡ b)
mode_beq_iff shims_only shims_only = (λ h. refl, λ h. refl)
mode_beq_iff shims_only (capability q k n) = (λ h. cc, λ h. cc)
mode_beq_iff (capability p l m) shims_only = (λ h. cc, λ h. cc)
mode_beq_iff (capability p l m) (capability q k n) =
    ground (arith, =?_iff p q, =?_iff l k, =?_iff m n)

instance abbrev pub mode_eq : Eq HostSessionMode
mode_eq = record { beq = mode_beq; beq_iff = mode_beq_iff }

pub record HostSessionKey : Type 0 where
  pub project_root : String
  pub mode : HostSessionMode
  pub imports : List String
  pub import_profile : LeanWorkerSessionImportProfile

abbrev key_beq : HostSessionKey → HostSessionKey → Bool
key_beq a b =
    (a.project_root =? b.project_root)
    && (a.mode =? b.mode)
    && (a.imports =? b.imports)
    && (a.import_profile =? b.import_profile)

pub key_beq_iff : (a b : HostSessionKey) → (key_beq a b ≡ true) ↔ (a ≡ b)
key_beq_iff a b = ground (
  arith,
  =?_iff a.project_root b.project_root,
  mode_beq_iff a.mode b.mode,
  =?_iff a.imports b.imports,
  profile_beq_iff a.import_profile b.import_profile,
)

instance abbrev pub host_key_eq : Eq HostSessionKey
host_key_eq = record { beq = key_beq; beq_iff = key_beq_iff }

-- The mode of the request, with the texts as which the paths were written.
unfoldable pub request_mode : (PathBuf → String) → LeanWorkerSessionMode → HostSessionMode
request_mode path_string (LeanWorkerSessionMode.capability name lib_name manifest_path) =
    capability name lib_name (Options.map path_string manifest_path)
request_mode path_string LeanWorkerSessionMode.shims_only = shims_only

-- What `open_worker_session` asks the child for.
unfoldable pub open_request : (PathBuf → String) → LeanWorkerSessionConfig → HostSessionKey
unfolding request_mode
open_request path_string config = record {
  project_root = path_string config.project_root;
  mode = request_mode path_string config.mode;
  imports = config.imports;
  import_profile = config.import_profile;
}
