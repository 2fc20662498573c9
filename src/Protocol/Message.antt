-- ===== src/Protocol/Message.antt =====
-- crates/lean-rs-worker-protocol/src/protocol.rs and types.rs: the messages that the supervisor looks
-- at. A response that it only hands on is `other`, with its tag; payloads are texts.
use lean_rs.Common.{ℕ, String, Bool, Option, List}

pub record LeanWorkerImportStats : Type 0 where
  pub direct_import_names : List String
  pub effective_module_count : ℕ
  pub compacted_region_count : ℕ
  pub memory_mapped_region_count : ℕ
  pub compacted_region_bytes : ℕ
  pub memory_mapped_region_bytes : ℕ
  pub non_memory_mapped_region_bytes : ℕ
  pub imported_bytes : ℕ
  pub imported_constant_count : ℕ
  pub extension_count : ℕ
  pub total_imported_extension_entries : ℕ
  pub import_level : String
  pub import_all : Bool
  pub load_exts : Bool

pub record LeanWorkerResourceExhaustedFacts : Type 0 where
  pub cause : String
  pub work_entered_child : Bool
  pub operation : Option String
  pub current_rss_kib : Option ℕ
  pub limit_kib : Option ℕ
  pub import_count : Option ℕ
  pub worker_generation : Option ℕ
  pub restart_reason : Option String
  pub queue_wait_ms : Option ℕ
  pub duration_ms : Option ℕ
  pub cold_open_attempts : Option ℕ
  pub cold_open_admitted : Option ℕ
  pub cold_open_refusals : Option ℕ
  pub import_like_requests : Option ℕ
  pub import_like_admitted : Option ℕ
  pub last_import_stats : Option LeanWorkerImportStats

pub data LeanWorkerSessionImportProfile : Type 0 where
  exported_public server private full_private_compat : LeanWorkerSessionImportProfile

pub record DataRow : Type 0 where
  pub stream : String
  pub sequence : ℕ
  pub payload : List ℕ

pub record ProgressTick : Type 0 where
  pub phase : String
  pub current : ℕ
  pub total : Option ℕ

pub record Diagnostic : Type 0 where
  pub code : String
  pub message : String

pub data Response : Type 0 where
  error : String → String → Response
  terminating : Response
  host_session_opened : LeanWorkerImportStats → Response
  host_session_reused : LeanWorkerImportStats → Response
  rows_complete : ℕ → Response
  stream_complete : String → Response
  other : String → Response

pub data Message : Type 0 where
  handshake : String → ℕ → Message
  configure_frame_limit : ℕ → Message
  request : String → Message
  response : Response → Message
  diagnostic : Diagnostic → Message
  progress_tick : ProgressTick → Message
  data_row : DataRow → Message
  fatal_exit : String → String → Message
