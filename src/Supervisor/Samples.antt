-- ===== src/Supervisor/Samples.antt =====
-- Concrete workers, policies and observations for the tests of the supervisor: a live child under a
-- policy of two imports and three requests.
use lean_rs.Common.{true, false, none, some, List, [], ◌∷◌, arith}
use lean_rs.Protocol.Message.{
  LeanWorkerImportStats, Response, host_session_opened, exported_public, response,
}
use lean_rs.Supervisor.Policy.{LeanWorkerRestartPolicy}
use lean_rs.Supervisor.Policy.Room.{IsClamped}
use lean_rs.Supervisor.Stats.{default_stats}
use lean_rs.Supervisor.Session.{LeanWorkerSessionConfig, shims_only, root_dir, normal}
use lean_rs.Supervisor.Worker.{LeanWorkerConfig, LeanWorker, idle, running, ExitStatus}
use lean_rs.Supervisor.Shutdown.{WaitTrace, GraceTrace, ShutdownEnv}
use lean_rs.Supervisor.Spawn.{starts, reaped}
use lean_rs.Supervisor.Reader.{terminal}
use lean_rs.Supervisor.Sinks.{returns}
use lean_rs.Supervisor.Request.{Round, round, hangs_up, event, ReadEnv}
use lean_rs.Supervisor.Restart.{RestartEnv}
use lean_rs.Supervisor.Admission.{AdmissionEnv}
use lean_rs.Supervisor.Reuse.{OpenEnv}

abbrev pub small_policy : LeanWorkerRestartPolicy
small_policy = record {
  max_requests = some 3;
  max_imports = some 2;
  max_import_residue_bytes = none;
  max_rss_kib = some 4096;
  idle_restart_after = none;
  restart_intensity = record { max_restarts = 2; window = 100 };
}

pub small_policy-IsClamped : IsClamped small_policy
small_policy-IsClamped = record {
  max_requests = omega arith;
  max_imports = omega arith;
  max_import_residue_bytes = tt;
}

abbrev pub small_config : LeanWorkerConfig
small_config = record {
  executable = "worker";
  startup_timeout = 1000;
  request_timeout = 1000;
  shutdown_timeout = 1000;
  restart_policy = small_policy;
  session_pool_capacity = none;
  rss_hard_limit_kib = none;
  rss_sample_interval = 10;
  max_frame_bytes = 4096;
}

-- A child that has imported twice and once restarted, with one remembered session.
abbrev pub busy_worker : List LeanWorkerSessionConfig → LeanWorker
busy_worker keys = record {
  config = small_config;
  child = some 7;
  stdin = true;
  stdout = true;
  stderr = true;
  last_exit = none;
  stats = record default_stats { restarts = 1; explicit_cycles = 1; imports = 2 };
  budget = record { requests = 2; imports = 2; import_residue_bytes = 0 };
  open_session_keys = keys;
  reuse_hint_enabled = true;
  reuse_observed = true;
  pending_restart = none;
  last_activity = 0;
  generation = 1;
  next_request_id = 4;
  restart_window = [];
  state = idle 1;
}

abbrev pub shims : LeanWorkerSessionConfig
shims = record {
  project_root = root_dir ∷ normal "project" ∷ [];
  mode = shims_only;
  imports = "Init" ∷ [];
  import_profile = exported_public;
}

abbrev pub clean_exit : ExitStatus
clean_exit = record { success = true; code = some 0; rendered = "exit status: 0" }

abbrev pub quiet_shutdown : ShutdownEnv
quiet_shutdown = record {
  poll = running;
  write = none;
  grace = GraceTrace.exits clean_exit "";
  killing = record { error = none; after = WaitTrace.exits clean_exit "" };
}

abbrev pub quiet_restart : RestartEnv
quiet_restart = record {
  started = 50;
  shutdown = quiet_shutdown;
  spawn = starts 8 5 60;
  finished = 70;
}

abbrev pub quiet_admission : AdmissionEnv
quiet_admission = record {
  poll = running;
  rss_before = some 100;
  rss = some 200;
  now = 10;
  restart = quiet_restart;
}

abbrev pub import_stats : LeanWorkerImportStats
import_stats = record {
  direct_import_names = "Init" ∷ [];
  effective_module_count = 1;
  compacted_region_count = 1;
  memory_mapped_region_count = 0;
  compacted_region_bytes = 8;
  memory_mapped_region_bytes = 0;
  non_memory_mapped_region_bytes = 8;
  imported_bytes = 8;
  imported_constant_count = 1;
  extension_count = 0;
  total_imported_extension_entries = 0;
  import_level = "exported";
  import_all = false;
  load_exts = false;
}

-- A round at the start of the request's time.
abbrev pub early_round : Round
early_round = record {
  rss = some 100;
  now = 25;
  elapsed = 5;
  sink = returns;
  cancelled = false;
  restart = quiet_restart;
  exit = reaped clean_exit "";
}

abbrev pub late_round : Round
late_round = record early_round { now = 2000 }

-- The wait of request 4 of generation 1 for a session.
abbrev pub opening : Response → ReadEnv
opening answer = record {
  operation = "open_worker_session";
  progress = false;
  sink_target = none;
  diagnostics = false;
  started = 20;
  instant_max = 100000;
  trace =
      round early_round (event (terminal 1 (some 4) (response answer) 0)) (hangs_up early_round);
}

-- The child imports although a reuse was expected.
abbrev pub mispredicted : OpenEnv
mispredicted = record {
  cancelled = false;
  deferred = quiet_restart;
  admission = quiet_admission;
  poll = running;
  write = none;
  now = 20;
  answer = opening (host_session_opened import_stats);
  elapsed = 5;
}
