-- ===== src/WorkerChild/Tests.antt =====
-- The child's theorems at concrete sessions: a child of capacity two that serves one session and has
-- parked another.
use lean_rs.Common.{ℕ, ◌≡◌, ◌≤◌, refl, true, false, none, some, [], ◌∷◌, arith, String}
use lean_rs.Protocol.Message.{LeanWorkerImportStats, Response, exported_public, host_session_opened}
use lean_rs.Supervisor.Policy.{disabled, fresh_budget}
use lean_rs.Supervisor.Stats.{default_stats}
use lean_rs.Supervisor.Session.{
  PathBuf, root_dir, normal, LeanWorkerSessionConfig, session_config_eq, shims_only,
}
use lean_rs.WorkerChild.Key.{HostSessionMode, HostSessionKey, open_request}
use lean_rs.Supervisor.Worker.{LeanWorker, idle}
use lean_rs.Supervisor.Reuse.{holds, on_answer, resolved_session_pool_capacity}
use lean_rs.WorkerChild.Sessions.{
  HostSessionState, ChildState, OpenEnv, session, open_or_reuse_host_session, session_pool_capacity,
}
use lean_rs.WorkerChild.Sessions.Held.{held}
use lean_rs.WorkerChild.Sessions.Agree.{Agree, Imports, received, open_session-Agree}
use lean_rs.WorkerChild.Sessions.Bounded.{held_count, open_or_reuse-Bounded}
use lean_rs.WorkerChild.Sessions.Served.{Serves, open_or_reuse-Serves}

-- The parent's configuration, two texts of its root, and the child's key for the first.
abbrev config_for : String → LeanWorkerSessionConfig
config_for name = record {
  project_root = root_dir ∷ normal "project" ∷ [];
  mode = shims_only;
  imports = name ∷ [];
  import_profile = exported_public;
}

abbrev plainly : PathBuf → String
plainly p = "/project"

abbrev with_a_slash : PathBuf → String
with_a_slash p = "/project/"

abbrev key_for : String → HostSessionKey
key_for name = record {
  project_root = "/project";
  mode = HostSessionMode.shims_only;
  imports = name ∷ [];
  import_profile = exported_public;
}

abbrev stats_of : String → LeanWorkerImportStats
stats_of name = record {
  direct_import_names = name ∷ [];
  effective_module_count = 1;
  compacted_region_count = 1;
  memory_mapped_region_count = 0;
  compacted_region_bytes = 8;
  memory_mapped_region_bytes = 0;
  non_memory_mapped_region_bytes = 8;
  imported_bytes = 8;
  imported_constant_count = 1;
  extension_count = 0;
  total_imported_extension_entries = 0;
  import_level = "exported";
  import_all = false;
  load_exts = false;
}

abbrev session_of : String → ℕ → HostSessionState
session_of name id = record {
  key = key_for name;
  env = id;
  extension_registry_epoch = 7;
  import_stats = stats_of name;
}

abbrev two_sessions : ChildState
two_sessions = record {
  anchors = record { project_root = "/project"; mode = HostSessionMode.shims_only } ∷ [];
  host_session = some (session_of "B" 1);
  parked = session_of "A" 0 ∷ [];
  snapshots = 0 ∷ 1 ∷ [];
}

abbrev opening_third : OpenEnv
opening_third = record {
  live_before = some 7;
  live_after = some 7;
  clears = true;
  anchor_error = none;
  imported = session 2 7 (stats_of "C");
}

-- A parent with a pool of two for the child, which remembers its sessions.
abbrev parent : LeanWorker
parent = record {
  config = record {
    executable = "worker";
    startup_timeout = 1000;
    request_timeout = 1000;
    shutdown_timeout = 1000;
    restart_policy = disabled;
    session_pool_capacity = some 2;
    rss_hard_limit_kib = none;
    rss_sample_interval = 10;
    max_frame_bytes = 4096;
  };
  child = some 7;
  stdin = true;
  stdout = true;
  stderr = true;
  last_exit = none;
  stats = default_stats;
  budget = fresh_budget;
  open_session_keys = config_for "A" ∷ config_for "B" ∷ [];
  reuse_hint_enabled = true;
  reuse_observed = true;
  pending_restart = none;
  last_activity = 0;
  generation = 1;
  next_request_id = 4;
  restart_window = [];
  state = idle 1;
}

abbrev parent_capacity : ℕ
parent_capacity = session_pool_capacity (resolved_session_pool_capacity parent.config)

-- The least recently used session goes.
third_evicts_first :
    held (open_or_reuse_host_session 2 (key_for "C") opening_third two_sessions).1
    ≡ key_for "B" ∷ key_for "C" ∷ []
unfolding open_or_reuse_host_session
third_evicts_first = refl

-- The child's answer to the parent's request for one more session, its root written so.
abbrev answered : (PathBuf → String) → String → Response × ChildState
answered path_string name =
    open_or_reuse_host_session parent_capacity (open_request path_string (config_for name))
      opening_third two_sessions

open_session-Agree_example :
    Agree
      (open_request plainly)
      (on_answer (config_for "C") false 0 5 (received (answered plainly "C").0, parent))
      (answered plainly "C").1
    × Imports (config_for "C") parent.open_session_keys (answered plainly "C").0
unfolding holds open_request
open_session-Agree_example =
    open_session-Agree plainly (config_for "C") opening_third 7 two_sessions parent false 0 5
      (record { before = refl; after = refl; imported = refl }) (refl, (refl, tt))
      (refl, (refl, tt)) refl (refl, (refl, tt))

-- A root written in another way is the same key for the parent, and a new one for the child.
other_spelling :
    (holds (config_for "B") parent.open_session_keys ≡ true)
    × ((answered with_a_slash "B").0 ≡ host_session_opened (stats_of "C"))
unfolding holds open_request open_or_reuse_host_session session_pool_capacity
    resolved_session_pool_capacity
other_spelling = (refl, refl)

open_or_reuse-Bounded_example :
    held_count (open_or_reuse_host_session 2 (key_for "C") opening_third two_sessions).1 ≤ 2
open_or_reuse-Bounded_example =
    open_or_reuse-Bounded 2 (key_for "C") opening_third two_sessions (omega arith) (omega arith)

open_or_reuse-Serves_example :
    Serves two_sessions
      (key_for "C")
      opening_third
      (open_or_reuse_host_session 2 (key_for "C") opening_third two_sessions)
open_or_reuse-Serves_example = open_or_reuse-Serves 2 (key_for "C") opening_third two_sessions
