-- ===== src/WorkerPool/Tests.antt =====
-- The pool's theorems at concrete pools: one worker with a free lease, and room for one more.
use lean_rs.Common.{
  ℕ, String, ◌≡◌, refl, inl, Bool, true, false, none, some, [], ◌∷◌, sat_add, arith,
}
use lean_rs.Protocol.Message.{exported_public}
use lean_rs.Supervisor.Types.{cancelled, pre_dispatch_cancelled_resource, ok, err}
use lean_rs.Supervisor.Policy.{disabled, fresh_budget}
use lean_rs.Supervisor.Stats.{default_stats}
use lean_rs.Supervisor.Session.{shims_only, root_dir, normal}
use lean_rs.Supervisor.Worker.{LeanWorker, Method, idle, running}
use lean_rs.Supervisor.Shutdown.{WaitTrace, GraceTrace}
use lean_rs.Supervisor.Spawn.{starts, reaped}
use lean_rs.Supervisor.Sinks.{returns}
use lean_rs.Supervisor.Request.{hangs_up}
use lean_rs.Supervisor.Restart.{RestartEnv}
use lean_rs.WorkerPool.Config.{LeanWorkerSessionKey, default, LeanWorkerPoolConfig}
use lean_rs.WorkerPool.Entry.{
  LeanWorkerCapability, LeanWorkerCapabilityBuilder, PoolEntry, PolicyEnv,
}
use lean_rs.WorkerPool.State.{LeanWorkerPool}
use lean_rs.WorkerPool.Pool.{admit_lease}
use lean_rs.WorkerPool.Pool.Admission.{Admission}
use lean_rs.WorkerPool.Pool.Admitted.{admit_lease-Admission}
use lean_rs.WorkerPool.Lease.{
  LeanWorkerSessionLease, grant_lease, AcquireEnv, acquire_lease, release_once, drop_lease,
}
use lean_rs.WorkerPool.Lease.Sound.{
  IsSound, Acquires, Drops, acquire_lease-Acquires, drop_lease-IsSound, release_once-grant_lease,
}
use lean_rs.WorkerPool.Run.{RunEnv, run_with_current_session}
use lean_rs.WorkerPool.Run.Validity.{
  IsRejected, Ran, run_with_current_session-IsStale, run_with_current_session-Ran,
}

abbrev key_of : String → LeanWorkerSessionKey
key_of name = record {
  project_root = "/project";
  import_workspace_root = "/project";
  built_manifest_path = none;
  package_name = name;
  lib_name = "Lib";
  imports = "Init" ∷ [];
  import_profile = exported_public;
  metadata_expectation = none;
  toolchain_fingerprint = "lean4";
  restart_policy_class = default;
}

abbrev builder_of : String → LeanWorkerCapabilityBuilder
builder_of name = record { session_key = key_of name; pool_request_timeout = 1000 }

abbrev idle_worker : LeanWorker
idle_worker = record {
  config = record {
    executable = "worker";
    startup_timeout = 1000;
    request_timeout = 1000;
    shutdown_timeout = 1000;
    restart_policy = disabled;
    session_pool_capacity = none;
    rss_hard_limit_kib = none;
    rss_sample_interval = 10;
    max_frame_bytes = 4096;
  };
  child = some 7;
  stdin = true;
  stdout = true;
  stderr = true;
  last_exit = none;
  stats = default_stats;
  budget = fresh_budget;
  open_session_keys = [];
  reuse_hint_enabled = true;
  reuse_observed = false;
  pending_restart = none;
  last_activity = 0;
  generation = 0;
  next_request_id = 0;
  restart_window = [];
  state = idle 0;
}

abbrev idle_capability : LeanWorkerCapability
idle_capability = record {
  worker = idle_worker;
  session_config = record {
    project_root = root_dir ∷ normal "project" ∷ [];
    mode = shims_only;
    imports = "Init" ∷ [];
    import_profile = exported_public;
  };
}

abbrev entry_of : String → PoolEntry
entry_of name = record {
  key = key_of name;
  builder = builder_of name;
  capability = idle_capability;
  base_request_timeout = 1000;
  last_rss_kib = none;
  rss_samples_unavailable = 0;
  last_activity = 0;
  last_restart_reason = none;
  policy_restarts = 0;
  active_leases = 0;
  commands_since_open = 0;
}

abbrev two_workers : LeanWorkerPoolConfig
two_workers = record {
  max_workers = 2;
  max_total_child_rss_kib = some 1000;
  per_worker_rss_ceiling_kib = some 800;
  idle_cycle_after = none;
  queue_wait_timeout = 0;
}

abbrev one_entry : LeanWorkerPool
one_entry = record {
  config = two_workers;
  entries = entry_of "a" ∷ [];
  queue_timeouts = 0;
  memory_budget_rejections = 0;
  cold_open_attempts = 1;
  cold_open_admitted = 1;
  cold_open_refusals = 0;
  key_hits = 0;
  key_misses = 1;
  seen_keys = key_of "a" ∷ [];
  fresh_cold_opens_avoided = 0;
  miss_empty_pool = 1;
  miss_no_matching_key = 0;
  last_key_miss_reason = none;
  cold_opens_in_progress = 0;
  concurrent_cold_opens_observed = 0;
  rss_before_admission_kib = none;
  rss_after_open_kib = none;
  refusal_reason = none;
}

one_entry-IsSound : IsSound one_entry
one_entry-IsSound = record { bounded = omega arith; unique = (refl, tt) }

abbrev quiet_cycle : RestartEnv
quiet_cycle = record {
  started = 50;
  shutdown = record {
    poll = running;
    write = none;
    grace =
        GraceTrace.exits (record { success = true; code = some 0; rendered = "exit status: 0" }) "";
    killing = record {
      error = none;
      after = WaitTrace.exits (record { success = false; code = none; rendered = "signal: 9" }) "";
    };
  };
  spawn = starts 8 5 60;
  finished = 70;
}

abbrev quiet_policy : PolicyEnv
quiet_policy = record { sample = some 100; now = 10; restart = quiet_cycle; cycled = 80 }

abbrev quiet_acquire : AcquireEnv
quiet_acquire = record {
  samples = λ i. some 300;
  poll = running;
  reopened = ok idle_capability;
  reopened_at = 5;
  policy = quiet_policy;
  opened = ok idle_capability;
  opened_at = 6;
  sample = some 200;
}

-- The worker never asks for the missing session to be opened here.
abbrev quiet_run : RunEnv
quiet_run = record {
  policy = quiet_policy;
  reopen = record {
    cancelled = true;
    deferred = quiet_cycle;
    admission = record {
      poll = running;
      rss_before = none;
      rss = none;
      now = 10;
      restart = quiet_cycle;
    };
    poll = running;
    write = none;
    now = 20;
    answer = record {
      operation = "open_worker_session";
      progress = false;
      sink_target = none;
      diagnostics = false;
      started = 20;
      instant_max = 100000;
      trace = hangs_up (record {
        rss = none;
        now = 21;
        elapsed = 1;
        sink = returns;
        cancelled = false;
        restart = quiet_cycle;
        exit = reaped (record { success = true; code = some 0; rendered = "exit status: 0" }) "";
      });
    };
    elapsed = 5;
  };
  elapsed = 3;
  finished = 30;
}

abbrev lease_of : Bool → LeanWorkerSessionLease
lease_of valid = record {
  entry = record (entry_of "a") { active_leases = 1 };
  config = two_workers;
  valid = valid;
  invalidation_reason = none;
  request_timeout_override = some 5;
  admitted_generation = 0;
  released = false;
}

-- A command that is cancelled.
abbrev cancelled_command : Method ℕ
cancelled_command w = (err (cancelled "command" (pre_dispatch_cancelled_resource "command")), w)

admit_lease-Admission_example :
    Admission
      (key_of "b")
      quiet_acquire.samples
      one_entry
      (admit_lease (key_of "b") quiet_acquire.samples one_entry)
admit_lease-Admission_example = admit_lease-Admission (key_of "b") quiet_acquire.samples one_entry

acquire_lease-Acquires_example :
    Acquires (key_of "b") (acquire_lease (builder_of "b") quiet_acquire one_entry)
acquire_lease-Acquires_example =
    acquire_lease-Acquires (builder_of "b") quiet_acquire one_entry one_entry-IsSound

drop_lease-IsSound_example :
    Drops (0, lease_of true) one_entry (drop_lease (0, lease_of true) one_entry)
drop_lease-IsSound_example =
    drop_lease-IsSound (0, lease_of true) one_entry one_entry-IsSound
      (record { place = entry_of "a"; at = refl; key = refl })

release_once-grant_lease_example :
    (release_once (release_once (lease_of false)) ≡ release_once (lease_of false))
    × ((release_once (lease_of false)).entry.active_leases ≡ 0)
unfolding grant_lease sat_add
release_once-grant_lease_example =
    release_once-grant_lease two_workers (entry_of "a") (lease_of false) (omega arith) refl refl

run_with_current_session-IsStale_example :
    IsRejected
      (lease_of false)
      (run_with_current_session cancelled_command quiet_run (lease_of false))
run_with_current_session-IsStale_example =
    run_with_current_session-IsStale cancelled_command quiet_run (lease_of false) (inl refl)

run_with_current_session-Ran_example :
    Ran cancelled_command quiet_run
      (lease_of true)
      (run_with_current_session cancelled_command quiet_run (lease_of true))
run_with_current_session-Ran_example =
    run_with_current_session-Ran cancelled_command quiet_run (lease_of true)
