-- ===== src/Supervisor/Restart/Outcome.antt =====
-- What a replacement leaves behind, whether it succeeds or fails: `restart_with_reason_before_spawn`
-- of crates/lean-rs-worker-parent/src/supervisor.rs.
use lean_rs.Common.{ℕ, ◌≡◌, refl, ◌∙◌, inl, inr, ◌⊎◌, none, some, List, [], ◌∷◌, ◌++◌, sat_inc, ap}
use lean_rs.Supervisor.Types.{LeanWorkerRestartReason, LeanWorkerError, Result, ok, err}
use lean_rs.Supervisor.Policy.{fresh_budget}
use lean_rs.Supervisor.Stats.{LeanWorkerStats, stream_counts, record_restart}
use lean_rs.Supervisor.Stats.Causes.{RecordsRestart, record_restart-RecordsRestart}
use lean_rs.Supervisor.Worker.{LeanWorker, LeanWorkerConfig, idle}
use lean_rs.Supervisor.Frame.{IsCoherent, Frame, Ends}
use lean_rs.Supervisor.Shutdown.{LeanWorkerShutdownReport}
use lean_rs.Supervisor.Shutdown.Outcome.{shutdown_child-Ends}
use lean_rs.Supervisor.Spawn.{SpawnTrace, reaped, wait_fails, spawn_worker, started_worker, starts}
use lean_rs.Supervisor.Restart.{
  RestartEnv, drop_expired, enter_restart, refuse_restart, stop_intent, after_stop, after_admission,
  replace_child, restart_with_reason,
}
use lean_rs.Supervisor.Restart.Window.{intensity, admitted, refused, admit_restart-Attempt}

-- A replacement: a live child of the next generation that has done nothing and remembers nothing,
-- behind a supervisor that keeps its policy, its request ids and its counters.
pub record IsReplaced (reason : LeanWorkerRestartReason) (env : RestartEnv) (w w' : LeanWorker)
    : Type 0 where
  pub alive : (pid : ℕ) × (w'.child ≡ some pid)
  pub generation : w'.generation ≡ sat_inc w.generation
  pub state : w'.state ≡ idle (sat_inc w.generation)
  pub next_request_id : w'.next_request_id ≡ w.next_request_id
  pub config : w'.config ≡ w.config
  pub budget : w'.budget ≡ fresh_budget
  pub forgotten : w'.open_session_keys ≡ []
  pub settled : w'.pending_restart ≡ none
  pub restarts : w'.stats.restarts ≡ sat_inc w.stats.restarts
  pub recorded : w'.stats.last_restart_reason ≡ some reason
  pub attempts : w'.stats.replacement_attempts ≡ sat_inc w.stats.replacement_attempts
  pub successes : w'.stats.replacement_successes ≡ sat_inc w.stats.replacement_successes
  pub failures : w'.stats.replacement_failures ≡ w.stats.replacement_failures
  pub window :
      w'.restart_window
      ≡ drop_expired (intensity w).window env.started w.restart_window ++ env.started ∷ []
  pub streams : stream_counts w'.stats ≡ stream_counts w.stats
  pub coherent : IsCoherent w'

-- A failed replacement counts as one failure and starts no generation.
pub record IsNotReplaced (w w' : LeanWorker) : Type 0 where
  pub budget : (w'.budget ≡ w.budget) ⊎ (w'.budget ≡ fresh_budget)
  pub settled : w'.pending_restart ≡ w.pending_restart
  pub generation : w'.generation ≡ w.generation
  pub next_request_id : w'.next_request_id ≡ w.next_request_id
  pub config : w'.config ≡ w.config
  pub attempts : w'.stats.replacement_attempts ≡ sat_inc w.stats.replacement_attempts
  pub successes : w'.stats.replacement_successes ≡ w.stats.replacement_successes
  pub failures : w'.stats.replacement_failures ≡ sat_inc w.stats.replacement_failures
  pub streams : stream_counts w'.stats ≡ stream_counts w.stats
  pub coherent : IsCoherent w'

abbrev pub Restarts :
    LeanWorkerRestartReason → RestartEnv → LeanWorker → Result (Unit {0}) × LeanWorker → Type 0
Restarts reason env w (ok a, w') = IsReplaced reason env w w'
Restarts reason env w (err e, w') = IsNotReplaced w w'

-- `LeanWorker::spawn` returns the started worker of some child, or an error.
data Spawned (config : LeanWorkerConfig) (r : Result LeanWorker) : Type 0 where
  live : (pid elapsed now : ℕ) → r ≡ ok (started_worker config pid elapsed now) → Spawned config r
  dead : (e : LeanWorkerError) → r ≡ err e → Spawned config r

spawn_worker-Spawned :
    (config : LeanWorkerConfig) (t : SpawnTrace) → Spawned config (spawn_worker config t)
unfolding spawn_worker
spawn_worker-Spawned config (starts pid elapsed now) = live pid elapsed now refl
spawn_worker-Spawned config (SpawnTrace.handshake_fails (reaped s t)) = dead _ refl
spawn_worker-Spawned config (SpawnTrace.handshake_fails (wait_fails io)) = dead _ refl
spawn_worker-Spawned config (SpawnTrace.startup_times_out (reaped s t)) = dead _ refl
spawn_worker-Spawned config (SpawnTrace.startup_times_out (wait_fails io)) = dead _ refl
spawn_worker-Spawned config _ = dead _ refl

module _ (reason : LeanWorkerRestartReason) (env : RestartEnv) (w : LeanWorker) where
  -- The worker once the attempt is counted.
  abbrev attempting : LeanWorker
  attempting = record w {
    stats = record w.stats { replacement_attempts = sat_inc w.stats.replacement_attempts };
  }

  abbrev admitted_stats : LeanWorker → LeanWorkerStats
  admitted_stats v = record v.stats {
    replacement_budget_admitted = sat_inc v.stats.replacement_budget_admitted;
  }

  replace_child-Restarts :
      (v : LeanWorker) (kept : List ℕ) (r : Result LeanWorker)
      → Frame attempting v
      → IsCoherent v
      → kept ≡ drop_expired (intensity v).window env.started v.restart_window
      → Spawned v.config r
      → Restarts reason env w (
          replace_child env
            (sat_inc v.generation)
            (record (enter_restart env.started kept v).1 {
              stats = record_restart reason (admitted_stats v);
              budget = fresh_budget;
            })
            r)
  unfolding replace_child enter_restart started_worker
  replace_child-Restarts v kept r f c k (live pid elapsed now e) = rw e (record {
    alive = (pid, refl);
    generation = ap sat_inc f.generation;
    state = ap (λ (g : ℕ). idle (sat_inc g)) f.generation;
    next_request_id = f.next_request_id;
    config = f.config;
    budget = refl;
    forgotten = refl;
    settled = refl;
    restarts = counts.restarts ∙ ap sat_inc f.restarts;
    recorded = counts.recorded;
    attempts = counts.attempts ∙ f.attempts;
    successes = ap sat_inc (counts.successes ∙ f.successes);
    failures = counts.failures ∙ f.failures;
    window = rw k (rw (f.config, f.restart_window) refl);
    streams = counts.streams ∙ f.streams;
    coherent = inl refl;
  })
    where
      counts : RecordsRestart reason (admitted_stats v) (record_restart reason (admitted_stats v))
      counts = record_restart-RecordsRestart reason (admitted_stats v)
  replace_child-Restarts v kept r f c k (dead x e) = rw e (record {
    budget = inr refl;
    settled = f.pending;
    generation = f.generation;
    next_request_id = f.next_request_id;
    config = f.config;
    attempts = counts.attempts ∙ f.attempts;
    successes = counts.successes ∙ f.successes;
    failures = ap sat_inc (counts.failures ∙ f.failures);
    streams = counts.streams ∙ f.streams;
    coherent = c;
  })
    where
      counts : RecordsRestart reason (admitted_stats v) (record_restart reason (admitted_stats v))
      counts = record_restart-RecordsRestart reason (admitted_stats v)

  after_stop-Restarts :
      (r : Result LeanWorkerShutdownReport × LeanWorker)
      → IsCoherent w
      → Ends attempting r
      → Restarts reason env w (after_stop reason env r)
  unfolding after_stop after_admission enter_restart refuse_restart
  after_stop-Restarts (err e, v) c h = record {
    budget = inl h.0.budget;
    settled = h.0.pending;
    generation = h.0.generation;
    next_request_id = h.0.next_request_id;
    config = h.0.config;
    attempts = h.0.attempts;
    successes = h.0.successes;
    failures = ap sat_inc h.0.failures;
    streams = h.0.streams;
    coherent = h.0.coherent c;
  }
  after_stop-Restarts (ok rep, v) c h = elim (admit_restart-Attempt env.started v) [
    | admitted room e ↦ rw e (
        replace_child-Restarts v _ _ h.0 (h.0.coherent c) refl
          (spawn_worker-Spawned v.config env.spawn))
    | refused full e ↦ rw e (record {
      budget = inl h.0.budget;
      settled = h.0.pending;
      generation = h.0.generation;
      next_request_id = h.0.next_request_id;
      config = h.0.config;
      attempts = h.0.attempts;
      successes = h.0.successes;
      failures = ap sat_inc h.0.failures;
      streams = h.0.streams;
      coherent = h.0.coherent c;
    })
  ]

-- A restart that returns `Ok` has put a live child of the next generation in place, with an empty
-- budget, no remembered session and the reason on record; one that fails starts no generation. On
-- both paths the policy, the request ids and the counts of streams stay, and one attempt is counted, as one success or one
-- failure. The supervisor holds no exit beside a live child, before and after.
pub restart_with_reason-Restarts :
    (reason : LeanWorkerRestartReason) (env : RestartEnv) (w : LeanWorker)
    → IsCoherent w
    → Restarts reason env w (restart_with_reason reason env w)
unfolding restart_with_reason
restart_with_reason-Restarts reason env w c =
    after_stop-Restarts reason env w _ c
      (shutdown_child-Ends (stop_intent reason) env.shutdown (attempting reason env w) c)
