-- ===== src/Supervisor/Restart.antt =====
-- crates/lean-rs-worker-parent/src/supervisor.rs: the replacement of a child, and the limit on how
-- often one supervisor replaces it.
pub mod Window
pub mod Outcome
use lean_rs.Common.{
  ℕ, zero, suc, ◌+◌, ◌-◌, String, Bool, true, false, Option, none, some, List, [], ◌∷◌, ◌++◌,
  length, leb, sat_inc, if◌then◌else◌,
}
use lean_rs.Common.Options
use lean_rs.Supervisor.Types.{
  LeanWorkerRestartReason, explicit, max_requests, max_imports, import_residue, rss_ceiling,
  rss_hard_limit, request_timeout, child_abort, stable_cause, LeanWorkerError,
  restart_limit_exceeded, Result, ok, err,
}
use lean_rs.Supervisor.Policy.{RestartIntensityLimit, fresh_budget}
use lean_rs.Supervisor.Stats.{LeanWorkerStats, LeanWorkerReplacementTiming, record_restart}
use lean_rs.Supervisor.Worker.{LeanWorker, Method, idle, restart_exhausted}
use lean_rs.Supervisor.Shutdown.{
  ShutdownIntent, graceful, kill_only, LeanWorkerShutdownReport, ShutdownEnv, shutdown_child,
}
use lean_rs.Supervisor.Spawn.{SpawnTrace, spawn_worker}

-- The restarts that have left the window are dropped from its front.
unfoldable pub drop_expired : ℕ → ℕ → List ℕ → List ℕ
drop_expired window now [] = []
drop_expired window now (t ∷ ts) =
    let rest = drop_expired window now ts in if leb window (now - t) then rest else t ∷ ts

pub refuse_restart : RestartIntensityLimit → List ℕ → Method (Unit {0})
refuse_restart limit kept w = (
  err (restart_limit_exceeded (length kept) limit.window),
  record w { restart_window = kept; state = restart_exhausted w.generation },
)

pub enter_restart : ℕ → List ℕ → Method (Unit {0})
enter_restart now kept w = (ok tt, record w { restart_window = kept ++ now ∷ [] })

admit_within : RestartIntensityLimit → ℕ → List ℕ → Method (Unit {0})
unfolding refuse_restart enter_restart
admit_within limit now kept w =
    if leb limit.max_restarts (length kept)
    then refuse_restart limit kept w
    else enter_restart now kept w

-- `LeanWorker::admit_restart`.
unfoldable pub admit_restart : ℕ → Method (Unit {0})
unfolding admit_within
admit_restart now w =
    let limit = w.config.restart_policy.restart_intensity in
    admit_within limit now (drop_expired limit.window now w.restart_window) w

-- What one replacement observes: the clock when it begins and ends, the shutdown and the start.
pub record RestartEnv : Type 0 where
  pub started : ℕ
  pub shutdown : ShutdownEnv
  pub spawn : SpawnTrace
  pub finished : ℕ

unfoldable pub stop_intent : LeanWorkerRestartReason → ShutdownIntent
stop_intent explicit = graceful
stop_intent (max_requests _) = graceful
stop_intent (max_imports _) = graceful
stop_intent (import_residue _ _) = graceful
stop_intent (rss_ceiling _ _ _) = graceful
stop_intent (LeanWorkerRestartReason.idle _ _) = graceful
stop_intent _ = kill_only

skip_replacement : String → LeanWorkerStats → LeanWorkerStats
skip_replacement reason s = record s {
  replacement_failures = sat_inc s.replacement_failures;
  last_replacement_skipped_reason = some reason;
}

replaced_stats : RestartEnv → LeanWorkerStats → LeanWorkerStats → LeanWorkerStats
replaced_stats env old fresh =
    let handshake = Options.get_or fresh.last_spawn_handshake_elapsed 0 in
    record old {
      replacement_successes = sat_inc old.replacement_successes;
      last_replacement_skipped_reason = none;
      last_spawn_handshake_elapsed = some handshake;
      last_replacement_timing = some (record {
        spawn_handshake = handshake;
        capability_load = Options.get_or old.last_capability_load_elapsed 0;
        session_open_import = 0;
        first_command = old.last_first_command_elapsed;
        warm_command = old.last_warm_command_elapsed;
        replacement_total = env.finished - env.started;
        replacement_reason =
            Options.get_or (Options.map stable_cause old.last_restart_reason) "unknown";
        replacement_budget_status = "synchronous-no-overlap";
      });
    }

-- The fresh worker takes over the counters, the request ids and the window, and nothing else.
take_over : RestartEnv → ℕ → LeanWorker → LeanWorker → LeanWorker
unfolding replaced_stats
take_over env generation old fresh = record fresh {
  stats = replaced_stats env old.stats fresh.stats;
  generation = generation;
  next_request_id = old.next_request_id;
  state = idle generation;
  restart_window = old.restart_window;
  last_activity = env.finished;
}

replace_child : RestartEnv → ℕ → LeanWorker → Result LeanWorker → Result (Unit {0}) × LeanWorker
unfolding take_over skip_replacement
replace_child env generation w (ok fresh) = (ok tt, take_over env generation w fresh)
replace_child env generation w (err e) =
    (err e, record w { stats = skip_replacement "spawn_failed" w.stats })

after_admission :
    LeanWorkerRestartReason
    → RestartEnv
    → Result (Unit {0}) × LeanWorker
    → Result (Unit {0}) × LeanWorker
unfolding replace_child skip_replacement
after_admission reason env (err e, w) = (
  err e,
  record w {
    stats = skip_replacement "restart_limit_exceeded" (record w.stats {
      replacement_budget_skipped = sat_inc w.stats.replacement_budget_skipped;
    });
  },
)
after_admission reason env (ok _, w) =
    let stats = record w.stats {
      replacement_budget_admitted = sat_inc w.stats.replacement_budget_admitted;
    } in
    let w' = record w { stats = record_restart reason stats; budget = fresh_budget } in
    replace_child env (sat_inc w.generation) w' (spawn_worker w.config env.spawn)

after_stop :
    LeanWorkerRestartReason
    → RestartEnv
    → Result LeanWorkerShutdownReport × LeanWorker
    → Result (Unit {0}) × LeanWorker
unfolding after_admission skip_replacement
after_stop reason env (err e, w) =
    (err e, record w { stats = skip_replacement "stop_failed" w.stats })
after_stop reason env (ok _, w) = after_admission reason env (admit_restart env.started w)

-- `LeanWorker::restart_with_reason_before_spawn`, and with it `restart_with_reason` and `cycle`.
unfoldable pub restart_with_reason : LeanWorkerRestartReason → RestartEnv → Method (Unit {0})
unfolding after_stop stop_intent
restart_with_reason reason env w = after_stop reason env (
    shutdown_child (stop_intent reason) env.shutdown (record w {
      stats = record w.stats { replacement_attempts = sat_inc w.stats.replacement_attempts };
    }))
