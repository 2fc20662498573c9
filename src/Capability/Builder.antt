-- ===== src/Capability/Builder.antt =====
-- crates/lean-rs-worker-parent/src/capability.rs: `LeanWorkerCapabilityBuilder`, its builder methods and
-- the session key it asks the pool for. `canonicalize` is the file system's answer. A capability that a
-- build script produced is of a type that is a parameter.
use lean_rs.Common.{ℕ, String, max, Option, none, some, List, [], ◌∷◌, ◌++◌, map, if◌then◌else◌}
use lean_rs.Common.Unique.{contains}
use lean_rs.Common.Equality.{string_eq}
use lean_rs.Protocol.Message.{LeanWorkerSessionImportProfile, private}
use lean_rs.Supervisor.Types.{nanos_per_milli}
use lean_rs.Supervisor.Policy.{LeanWorkerRestartPolicy}
use lean_rs.Toolchain.Abi.{LeanExportSignature, string_io_signature, streaming_command_signature}
use lean_rs.Capability.Child.{LeanWorkerChild, child_path, LeanWorkerModuleCacheLimits}
use lean_rs.Planner.Plan.{PlanEnv, normalize_import_workspace_root}

-- `LEAN_WORKER_REQUEST_TIMEOUT_DEFAULT` and `LEAN_WORKER_REQUEST_TIMEOUT_LONG_RUNNING`.
abbrev pub request_timeout_default : ℕ
request_timeout_default = 30000000000

abbrev pub request_timeout_long_running : ℕ
request_timeout_long_running = 600000000000

pub record CapabilityMetadataCheck : Type 0 where
  pub export : String
  pub request : String
  pub expected : Option String

pub record LeanWorkerCapabilityBuilder (Built : Type 0) : Type 0 where
  pub project_root : String
  pub import_workspace_root : Option String
  pub package_name : String
  pub lib_name : String
  pub imports : List String
  pub import_profile : LeanWorkerSessionImportProfile
  pub built_dylib_path : Option String
  pub built_manifest_path : Option String
  pub built_capability : Option Built
  pub worker_child : Option LeanWorkerChild
  pub startup_timeout : Option ℕ
  pub request_timeout : Option ℕ
  pub shutdown_timeout : Option ℕ
  pub restart_policy : Option LeanWorkerRestartPolicy
  pub session_pool_capacity : Option ℕ
  pub rss_hard_limit : Option (ℕ × ℕ)
  pub module_cache_limits : Option LeanWorkerModuleCacheLimits
  pub num_threads : Option ℕ
  pub lean_max_memory_kib : Option ℕ
  pub metadata_check : Option CapabilityMetadataCheck
  pub max_frame_bytes : Option ℕ
  pub worker_export_signatures : List LeanExportSignature

abbrev pub Setter : Type 0 → Type 0
Setter Built = LeanWorkerCapabilityBuilder Built → LeanWorkerCapabilityBuilder Built

abbrev pub symbols : List LeanExportSignature → List String
symbols l = map (λ s. s.symbol) l

module _ {Built : Type 0} where
  -- `LeanWorkerCapabilityBuilder::new`.
  unfoldable pub new_builder :
      String → String → String → List String → LeanWorkerCapabilityBuilder Built
  new_builder project_root package_name lib_name imports = record {
    project_root = project_root;
    import_workspace_root = none;
    package_name = package_name;
    lib_name = lib_name;
    imports = imports;
    import_profile = private;
    built_dylib_path = none;
    built_manifest_path = none;
    built_capability = none;
    worker_child = none;
    startup_timeout = none;
    request_timeout = none;
    shutdown_timeout = none;
    restart_policy = none;
    session_pool_capacity = none;
    rss_hard_limit = none;
    module_cache_limits = none;
    num_threads = none;
    lean_max_memory_kib = none;
    metadata_check = none;
    max_frame_bytes = none;
    worker_export_signatures = [];
  }

  unfoldable pub choose_worker_executable : String → Setter Built
  unfolding child_path
  choose_worker_executable path b = record b { worker_child = some (child_path path) }

  unfoldable pub choose_worker_child : LeanWorkerChild → Setter Built
  choose_worker_child child b = record b { worker_child = some child }

  unfoldable pub choose_import_workspace_root : PlanEnv → String → Setter Built
  unfolding normalize_import_workspace_root
  choose_import_workspace_root env path b = record b {
    import_workspace_root = some (normalize_import_workspace_root env path);
  }

  unfoldable pub choose_import_profile : LeanWorkerSessionImportProfile → Setter Built
  choose_import_profile profile b = record b { import_profile = profile }

  unfoldable pub choose_startup_timeout : ℕ → Setter Built
  choose_startup_timeout timeout b = record b { startup_timeout = some timeout }

  unfoldable pub choose_request_timeout : ℕ → Setter Built
  choose_request_timeout timeout b = record b { request_timeout = some timeout }

  unfoldable pub choose_shutdown_timeout : ℕ → Setter Built
  choose_shutdown_timeout timeout b = record b { shutdown_timeout = some timeout }

  unfoldable pub choose_long_running_requests : Setter Built
  choose_long_running_requests b = record b { request_timeout = some request_timeout_long_running }

  unfoldable pub choose_restart_policy : LeanWorkerRestartPolicy → Setter Built
  choose_restart_policy policy b = record b { restart_policy = some policy }

  unfoldable pub choose_session_pool_capacity : ℕ → Setter Built
  choose_session_pool_capacity capacity b = record b {
    session_pool_capacity = some (max capacity 1);
  }

  unfoldable pub choose_rss_hard_limit : ℕ → ℕ → Setter Built
  choose_rss_hard_limit limit_kib sample_interval b = record b {
    rss_hard_limit = some (max limit_kib 1, max sample_interval nanos_per_milli);
  }

  unfoldable pub choose_module_cache_limits : LeanWorkerModuleCacheLimits → Setter Built
  choose_module_cache_limits limits b = record b { module_cache_limits = some limits }

  unfoldable pub choose_num_threads : ℕ → Setter Built
  choose_num_threads threads b = record b { num_threads = some threads }

  unfoldable pub choose_lean_max_memory_kib : ℕ → Setter Built
  choose_lean_max_memory_kib limit_kib b = record b { lean_max_memory_kib = some limit_kib }

  unfoldable pub choose_max_frame_bytes : ℕ → Setter Built
  choose_max_frame_bytes n b = record b { max_frame_bytes = some n }

  -- A second signature of one symbol is dropped.
  unfoldable pub add_worker_export_signature : LeanExportSignature → Setter Built
  add_worker_export_signature signature b =
      if contains signature.symbol (symbols b.worker_export_signatures)
      then b
      else record b { worker_export_signatures = b.worker_export_signatures ++ signature ∷ [] }

  -- `metadata_signature`, `doctor_signature` and `json_command_signature` are one shape.
  unfoldable pub choose_string_export : String → Setter Built
  unfolding add_worker_export_signature string_io_signature
  choose_string_export symbol b = add_worker_export_signature (string_io_signature symbol) b

  unfoldable pub choose_streaming_export : String → Setter Built
  unfolding add_worker_export_signature streaming_command_signature
  choose_streaming_export symbol b =
      add_worker_export_signature (streaming_command_signature symbol) b

  -- `validate_metadata`.
  unfoldable pub choose_validate_metadata : String → String → Setter Built
  unfolding choose_string_export
  choose_validate_metadata export request b = record (choose_string_export export b) {
    metadata_check = some (record { export = export; request = request; expected = none });
  }

  -- `expect_metadata`.
  unfoldable pub choose_expect_metadata : String → String → String → Setter Built
  unfolding choose_string_export
  choose_expect_metadata export request expected b = record (choose_string_export export b) {
    metadata_check = some (record { export = export; request = request; expected = some expected });
  }
