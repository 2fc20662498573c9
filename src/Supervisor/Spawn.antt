-- ===== src/Supervisor/Spawn.antt =====
-- crates/lean-rs-worker-parent/src/supervisor.rs: `LeanWorker::spawn`. The operating system and the
-- handshake reader answer through a trace with a constructor for each way a start can go.
use lean_rs.Common.{ℕ, String, true, false, none, some, [], ◌∷◌}
use lean_rs.Protocol.Message.{LeanWorkerResourceExhaustedFacts}
use lean_rs.Supervisor.Types.{
  IoError, lit, LeanWorkerError, spawn, setup, handshake, protocol, wait, timeout, Result, ok, err,
  duration_ms,
}
use lean_rs.Supervisor.Policy.{fresh_budget}
use lean_rs.Supervisor.Stats.{default_stats}
use lean_rs.Supervisor.Worker.{
  LeanWorker, LeanWorkerConfig, ExitStatus, from_status, exit_error, idle,
}

-- `wait_with_stderr` on a child that has been killed.
pub data Reaped : Type 0 where
  reaped : ExitStatus → String → Reaped
  wait_fails : IoError → Reaped

pub data SpawnTrace : Type 0 where
  command_fails : IoError → SpawnTrace
  no_stdin no_stdout reader_lost : SpawnTrace
  handshake_fails : Reaped → SpawnTrace
  startup_times_out : Reaped → SpawnTrace
  limit_frame_fails : String → SpawnTrace
  -- The child's id, the time since the start and the clock.
  starts : ℕ → ℕ → ℕ → SpawnTrace

startup_facts : ℕ → LeanWorkerResourceExhaustedFacts
unfolding duration_ms
startup_facts startup_timeout = record {
  cause = "worker_timeout";
  work_entered_child = false;
  operation = some "startup";
  current_rss_kib = none;
  limit_kib = none;
  import_count = none;
  worker_generation = none;
  restart_reason = none;
  queue_wait_ms = none;
  duration_ms = some (duration_ms startup_timeout);
  cold_open_attempts = none;
  cold_open_admitted = none;
  cold_open_refusals = none;
  import_like_requests = none;
  import_like_admitted = none;
  last_import_stats = none;
}

-- The worker that a successful start returns.
unfoldable pub started_worker : LeanWorkerConfig → ℕ → ℕ → ℕ → LeanWorker
started_worker config pid elapsed now = record {
  config = config;
  child = some pid;
  stdin = true;
  stdout = true;
  stderr = true;
  last_exit = none;
  stats = record default_stats { last_spawn_handshake_elapsed = some elapsed };
  budget = fresh_budget;
  open_session_keys = [];
  reuse_hint_enabled = true;
  reuse_observed = false;
  pending_restart = none;
  last_activity = now;
  generation = 0;
  next_request_id = 0;
  restart_window = [];
  state = idle 0;
}

after_kill : (ExitStatus → String → LeanWorkerError) → Reaped → Result LeanWorker
after_kill e (reaped s text) = err (e s text)
after_kill e (wait_fails io) = err (wait io)

-- `LeanWorker::spawn`.
unfoldable pub spawn_worker : LeanWorkerConfig → SpawnTrace → Result LeanWorker
unfolding startup_facts started_worker after_kill from_status exit_error
spawn_worker config (command_fails io) = err (spawn io)
spawn_worker config no_stdin = err (setup "child stdin unavailable")
spawn_worker config no_stdout = err (setup "child stdout unavailable")
spawn_worker config reader_lost = err (handshake "handshake reader exited without a result")
spawn_worker config (handshake_fails r) = after_kill (λ s text. exit_error (from_status s text)) r
spawn_worker config (startup_times_out r) =
    after_kill
      (λ _ _. timeout "startup" config.startup_timeout (startup_facts config.startup_timeout)) r
spawn_worker config (limit_frame_fails message) =
    err (protocol (lit "failed to send ConfigureFrameLimit: " ∷ lit message ∷ []))
spawn_worker config (starts pid elapsed now) = ok (started_worker config pid elapsed now)
