-- ===== src/Supervisor/Types.antt =====
-- crates/lean-rs-worker-parent/src/supervisor.rs: restart reasons, exits, errors and the resource
-- facts that errors carry. A `Duration` or an `Instant` is its number of nanoseconds; a formatted
-- message is the list of the pieces that `format!` joins.
use lean_rs.Common.{ℕ, ◌/◌, min, String, Bool, false, Option, none, some, List, u64_max}
use lean_rs.Protocol.Message.{
  LeanWorkerImportStats, LeanWorkerResourceExhaustedFacts, Message, Response,
}
use lean_rs.Protocol.Frame.{ProtocolError}

-- One piece of a formatted message.
pub data Piece : Type 0 where
  lit : String → Piece
  num : ℕ → Piece
  message_debug : Message → Piece
  response_debug : Response → Piece
  duration_debug : ℕ → Piece
  protocol_error_display : ProtocolError → Piece

abbrev pub Text : Type 0
Text = List Piece

pub record IoError : Type 0 where
  pub unexpected_eof : Bool
  pub message : String

pub record LeanWorkerExit : Type 0 where
  pub success : Bool
  pub code : Option ℕ
  pub status : String
  pub diagnostics : String

pub data LeanWorkerRestartReason : Type 0 where
  explicit : LeanWorkerRestartReason
  max_requests : ℕ → LeanWorkerRestartReason
  max_imports : ℕ → LeanWorkerRestartReason
  import_residue : ℕ → ℕ → LeanWorkerRestartReason
  rss_ceiling : ℕ → ℕ → Option LeanWorkerImportStats → LeanWorkerRestartReason
  rss_hard_limit : String → ℕ → ℕ → Option LeanWorkerImportStats → LeanWorkerRestartReason
  idle : ℕ → ℕ → LeanWorkerRestartReason
  cancelled : String → LeanWorkerRestartReason
  request_timeout : String → ℕ → LeanWorkerRestartReason
  child_abort : String → String → String → LeanWorkerRestartReason

unfoldable pub stable_cause : LeanWorkerRestartReason → String
stable_cause explicit = "explicit"
stable_cause (max_requests _) = "max_requests"
stable_cause (max_imports _) = "max_imports"
stable_cause (import_residue _ _) = "import_residue"
stable_cause (rss_ceiling _ _ _) = "rss_ceiling"
stable_cause (rss_hard_limit _ _ _ _) = "rss_hard_limit"
stable_cause (idle _ _) = "idle"
stable_cause (cancelled _) = "cancelled"
stable_cause (request_timeout _ _) = "timeout"
stable_cause (child_abort _ _ _) = "child_abort"

pub data LeanWorkerError : Type 0 where
  spawn : IoError → LeanWorkerError
  setup : String → LeanWorkerError
  handshake : String → LeanWorkerError
  protocol : Text → LeanWorkerError
  worker : String → String → LeanWorkerError
  child_exited : LeanWorkerExit → LeanWorkerError
  child_panic_or_abort : LeanWorkerExit → LeanWorkerError
  timeout : String → ℕ → LeanWorkerResourceExhaustedFacts → LeanWorkerError
  rss_hard_limit_exceeded :
      String
      → ℕ
      → ℕ
      → Option LeanWorkerImportStats
      → LeanWorkerResourceExhaustedFacts
      → LeanWorkerError
  cancelled : String → LeanWorkerResourceExhaustedFacts → LeanWorkerError
  progress_panic : String → LeanWorkerError
  data_sink_panic : String → LeanWorkerError
  diagnostic_sink_panic : String → LeanWorkerError
  capability_metadata_mismatch : String → LeanWorkerError
  lease_invalidated : Text → LeanWorkerError
  worker_pool_exhausted : ℕ → LeanWorkerResourceExhaustedFacts → LeanWorkerError
  worker_pool_memory_budget_exceeded :
      ℕ → ℕ → Option LeanWorkerImportStats → LeanWorkerResourceExhaustedFacts → LeanWorkerError
  worker_pool_queue_timeout : ℕ → LeanWorkerResourceExhaustedFacts → LeanWorkerError
  restart_limit_exceeded : ℕ → ℕ → LeanWorkerError
  wait : IoError → LeanWorkerError
  kill : IoError → LeanWorkerError
  wait_timeout : String → ℕ → LeanWorkerError
  shutdown_in_progress : String → LeanWorkerError
  -- The errors of capability builds, typed commands and metadata, by their variant's name.
  capability : String → LeanWorkerError

unfoldable pub resource_exhausted_facts : LeanWorkerError → Option LeanWorkerResourceExhaustedFacts
resource_exhausted_facts (timeout _ _ r) = some r
resource_exhausted_facts (rss_hard_limit_exceeded _ _ _ _ r) = some r
resource_exhausted_facts (cancelled _ r) = some r
resource_exhausted_facts (worker_pool_exhausted _ r) = some r
resource_exhausted_facts (worker_pool_memory_budget_exceeded _ _ _ r) = some r
resource_exhausted_facts (worker_pool_queue_timeout _ r) = some r
resource_exhausted_facts _ = none

-- What a call returns.
pub data Result {ℓ} (A : Type ℓ) : Type ℓ where
  ok : A → Result A
  err : LeanWorkerError → Result A

abbrev pub nanos_per_milli : ℕ
nanos_per_milli = 1000000

unfoldable pub duration_ms : ℕ → ℕ
duration_ms d = min (d / nanos_per_milli) u64_max

unfoldable pub pre_dispatch_cancelled_resource : String → LeanWorkerResourceExhaustedFacts
pre_dispatch_cancelled_resource operation = record {
  cause = "worker_cancelled";
  work_entered_child = false;
  operation = some operation;
  current_rss_kib = none;
  limit_kib = none;
  import_count = none;
  worker_generation = none;
  restart_reason = none;
  queue_wait_ms = none;
  duration_ms = none;
  cold_open_attempts = none;
  cold_open_admitted = none;
  cold_open_refusals = none;
  import_like_requests = none;
  import_like_admitted = none;
  last_import_stats = none;
}
