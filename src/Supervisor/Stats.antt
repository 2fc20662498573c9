-- ===== src/Supervisor/Stats.antt =====
-- crates/lean-rs-worker-parent/src/supervisor.rs: `LeanWorkerStats`, the lifetime counters of one
-- supervisor, and the facts that are read off them.
pub mod Causes
use lean_rs.Common.{ℕ, String, Bool, Option, none, some, sat_inc}
use lean_rs.Common.Options
use lean_rs.Protocol.Message.{LeanWorkerImportStats, LeanWorkerResourceExhaustedFacts}
use lean_rs.Supervisor.Types.{
  LeanWorkerRestartReason, explicit, max_requests, max_imports, import_residue, rss_ceiling,
  rss_hard_limit, idle, request_timeout, child_abort, stable_cause, LeanWorkerExit, duration_ms,
}

pub record LeanWorkerReplacementTiming : Type 0 where
  pub spawn_handshake : ℕ
  pub capability_load : ℕ
  pub session_open_import : ℕ
  pub first_command : Option ℕ
  pub warm_command : Option ℕ
  pub replacement_total : ℕ
  pub replacement_reason : String
  pub replacement_budget_status : String

pub record LeanWorkerStats : Type 0 where
  pub requests : ℕ
  pub imports : ℕ
  pub import_like_admission_attempts : ℕ
  pub import_like_admitted : ℕ
  pub last_import_like_rss_before_admission_kib : Option ℕ
  pub exits : ℕ
  pub restarts : ℕ
  pub explicit_cycles : ℕ
  pub max_request_restarts : ℕ
  pub max_import_restarts : ℕ
  pub import_residue_restarts : ℕ
  pub import_stats_unusable : ℕ
  pub rss_restarts : ℕ
  pub idle_restarts : ℕ
  pub cancelled_restarts : ℕ
  pub timeout_restarts : ℕ
  pub rss_samples_unavailable : ℕ
  pub last_rss_kib : Option ℕ
  pub last_restart_reason : Option LeanWorkerRestartReason
  pub replacement_attempts : ℕ
  pub replacement_successes : ℕ
  pub replacement_failures : ℕ
  pub replacement_budget_admitted : ℕ
  pub replacement_budget_skipped : ℕ
  pub last_replacement_timing : Option LeanWorkerReplacementTiming
  pub last_replacement_skipped_reason : Option String
  pub last_spawn_handshake_elapsed : Option ℕ
  pub last_capability_load_elapsed : Option ℕ
  pub last_session_open_import_elapsed : Option ℕ
  pub last_first_command_elapsed : Option ℕ
  pub last_warm_command_elapsed : Option ℕ
  pub last_import_stats : Option LeanWorkerImportStats
  pub stream_requests : ℕ
  pub stream_successes : ℕ
  pub stream_failures : ℕ
  pub data_rows_delivered : ℕ
  pub data_row_payload_bytes : ℕ
  pub stream_elapsed : ℕ
  pub backpressure_waits : ℕ
  pub backpressure_failures : ℕ

-- What the counters say of streams: requests, successes, failures, rows and their bytes.
abbrev pub stream_counts : LeanWorkerStats → ℕ × ℕ × ℕ × ℕ × ℕ
stream_counts s = (
  s.stream_requests, s.stream_successes, s.stream_failures, s.data_rows_delivered,
  s.data_row_payload_bytes,
)

-- `LeanWorkerStats::default()`.
abbrev pub default_stats : LeanWorkerStats
default_stats = record {
  requests = 0;
  imports = 0;
  import_like_admission_attempts = 0;
  import_like_admitted = 0;
  last_import_like_rss_before_admission_kib = none;
  exits = 0;
  restarts = 0;
  explicit_cycles = 0;
  max_request_restarts = 0;
  max_import_restarts = 0;
  import_residue_restarts = 0;
  import_stats_unusable = 0;
  rss_restarts = 0;
  idle_restarts = 0;
  cancelled_restarts = 0;
  timeout_restarts = 0;
  rss_samples_unavailable = 0;
  last_rss_kib = none;
  last_restart_reason = none;
  replacement_attempts = 0;
  replacement_successes = 0;
  replacement_failures = 0;
  replacement_budget_admitted = 0;
  replacement_budget_skipped = 0;
  last_replacement_timing = none;
  last_replacement_skipped_reason = none;
  last_spawn_handshake_elapsed = none;
  last_capability_load_elapsed = none;
  last_session_open_import_elapsed = none;
  last_first_command_elapsed = none;
  last_warm_command_elapsed = none;
  last_import_stats = none;
  stream_requests = 0;
  stream_successes = 0;
  stream_failures = 0;
  data_rows_delivered = 0;
  data_row_payload_bytes = 0;
  stream_elapsed = 0;
  backpressure_waits = 0;
  backpressure_failures = 0;
}

count_restart : LeanWorkerRestartReason → LeanWorkerStats → LeanWorkerStats
count_restart explicit s = record s { explicit_cycles = sat_inc s.explicit_cycles }
count_restart (max_requests _) s = record s {
  max_request_restarts = sat_inc s.max_request_restarts;
}
count_restart (max_imports _) s = record s { max_import_restarts = sat_inc s.max_import_restarts }
count_restart (import_residue _ _) s = record s {
  import_residue_restarts = sat_inc s.import_residue_restarts;
}
count_restart (rss_ceiling _ _ _) s = record s { rss_restarts = sat_inc s.rss_restarts }
count_restart (rss_hard_limit _ _ _ _) s = record s { rss_restarts = sat_inc s.rss_restarts }
count_restart (idle _ _) s = record s { idle_restarts = sat_inc s.idle_restarts }
count_restart (LeanWorkerRestartReason.cancelled _) s = record s {
  cancelled_restarts = sat_inc s.cancelled_restarts;
}
count_restart (request_timeout _ _) s = record s { timeout_restarts = sat_inc s.timeout_restarts }
count_restart (child_abort _ _ _) s = s

-- `LeanWorkerStats::record_restart`.
unfoldable pub record_restart : LeanWorkerRestartReason → LeanWorkerStats → LeanWorkerStats
unfolding count_restart
record_restart reason s =
    record (count_restart reason (record s { restarts = sat_inc s.restarts })) {
      last_restart_reason = some reason;
    }

-- `worker_resource_facts`.
unfoldable pub worker_resource_facts :
    String
    → Bool
    → Option String
    → LeanWorkerStats
    → Option ℕ
    → Option ℕ
    → Option ℕ
    → LeanWorkerResourceExhaustedFacts
worker_resource_facts cause entered operation stats current_rss_kib limit_kib duration = record {
  cause = cause;
  work_entered_child = entered;
  operation = operation;
  current_rss_kib = current_rss_kib;
  limit_kib = limit_kib;
  import_count = some stats.imports;
  worker_generation = some stats.restarts;
  restart_reason = Options.map stable_cause stats.last_restart_reason;
  queue_wait_ms = none;
  duration_ms = Options.map duration_ms duration;
  cold_open_attempts = none;
  cold_open_admitted = none;
  cold_open_refusals = none;
  import_like_requests = some stats.import_like_admission_attempts;
  import_like_admitted = some stats.import_like_admitted;
  last_import_stats = stats.last_import_stats;
}

pub record LeanWorkerLifecycleSnapshot : Type 0 where
  pub worker_generation : ℕ
  pub restarts : ℕ
  pub exits : ℕ
  pub last_restart_reason : Option LeanWorkerRestartReason
  pub last_exit : Option LeanWorkerExit
  pub last_rss_kib : Option ℕ
  pub rss_samples_unavailable : ℕ
  pub import_residue_bytes : ℕ
  pub import_residue_limit_bytes : Option ℕ

-- `LeanWorkerLifecycleSnapshot::from_worker`.
unfoldable pub from_worker :
    LeanWorkerStats → Option LeanWorkerExit → ℕ → Option ℕ → LeanWorkerLifecycleSnapshot
from_worker stats last_exit residue limit = record {
  worker_generation = stats.restarts;
  restarts = stats.restarts;
  exits = stats.exits;
  last_restart_reason = stats.last_restart_reason;
  last_exit = last_exit;
  last_rss_kib = stats.last_rss_kib;
  rss_samples_unavailable = stats.rss_samples_unavailable;
  import_residue_bytes = residue;
  import_residue_limit_bytes = limit;
}
