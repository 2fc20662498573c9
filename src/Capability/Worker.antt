-- ===== src/Capability/Worker.antt =====
-- crates/lean-rs-worker-parent/src/supervisor.rs: the builder methods of `LeanWorkerConfig`; capability.rs:
-- the configuration that `spawn_checked_worker` starts a builder's worker with. The working directory and
-- the environment of the child are left out.
pub mod Within
use lean_rs.Common.{ℕ, String, ◌≡◌, refl, ◌≤◌, max, min, Option, none, some, arith}
use lean_rs.Common.Options.{get_or}
use lean_rs.Supervisor.Types.{nanos_per_milli}
use lean_rs.Supervisor.Policy.{LeanWorkerRestartPolicy, disabled}
use lean_rs.Supervisor.Worker.{LeanWorkerConfig}
use lean_rs.Capability.Builder.{
  LeanWorkerCapabilityBuilder, request_timeout_default, request_timeout_long_running,
}
use lean_rs.Capability.Session.{pool_request_timeout}

-- `MIN_FRAME_BYTES`, `MAX_FRAME_BYTES` and `MAX_FRAME_BYTES_HARD_CAP` of protocol.rs.
abbrev pub min_frame_bytes : ℕ
min_frame_bytes = 65536

abbrev pub default_frame_bytes : ℕ
default_frame_bytes = 1048576

abbrev pub frame_bytes_hard_cap : ℕ
frame_bytes_hard_cap = 268435456

-- `LeanWorkerConfig::new`.
unfoldable pub new_worker_config : String → LeanWorkerConfig
new_worker_config executable = record {
  executable = executable;
  startup_timeout = 10000000000;
  request_timeout = request_timeout_default;
  shutdown_timeout = 2000000000;
  restart_policy = disabled;
  session_pool_capacity = none;
  rss_hard_limit_kib = none;
  rss_sample_interval = 250000000;
  max_frame_bytes = default_frame_bytes;
}

abbrev pub ConfigStep : Type 0
ConfigStep = LeanWorkerConfig → LeanWorkerConfig

unfoldable pub config_startup_timeout : ℕ → ConfigStep
config_startup_timeout timeout c = record c { startup_timeout = timeout }

unfoldable pub config_request_timeout : ℕ → ConfigStep
config_request_timeout timeout c = record c { request_timeout = timeout }

unfoldable pub config_shutdown_timeout : ℕ → ConfigStep
config_shutdown_timeout timeout c = record c { shutdown_timeout = timeout }

unfoldable pub config_long_running_requests : ConfigStep
config_long_running_requests c = record c { request_timeout = request_timeout_long_running }

unfoldable pub config_restart_policy : LeanWorkerRestartPolicy → ConfigStep
config_restart_policy policy c = record c { restart_policy = policy }

unfoldable pub config_session_pool_capacity : ℕ → ConfigStep
config_session_pool_capacity capacity c = record c { session_pool_capacity = some (max capacity 1) }

unfoldable pub config_rss_hard_limit : ℕ × ℕ → ConfigStep
config_rss_hard_limit (limit_kib, sample_interval) c = record c {
  rss_hard_limit_kib = some (max limit_kib 1);
  rss_sample_interval = max sample_interval nanos_per_milli;
}

-- `n.clamp(MIN_FRAME_BYTES, MAX_FRAME_BYTES_HARD_CAP)`.
unfoldable pub config_max_frame_bytes : ℕ → ConfigStep
config_max_frame_bytes n c = record c {
  max_frame_bytes = min (max n min_frame_bytes) frame_bytes_hard_cap;
}

-- `if let Some(value) = option { config = config.step(value) }`.
abbrev pub if_some {ℓ} : {A : Type ℓ} → Option A → (A → ConfigStep) → ConfigStep
if_some none step c = c
if_some (some a) step c = step a c

module _ {Built : Type 0} where
  -- The configuration that `spawn_checked_worker` builds, from the resolved executable.
  unfoldable pub spawn_config : String → LeanWorkerCapabilityBuilder Built → LeanWorkerConfig
  unfolding new_worker_config config_startup_timeout config_request_timeout config_shutdown_timeout
      config_restart_policy config_session_pool_capacity config_rss_hard_limit
      config_max_frame_bytes
  spawn_config executable b = if_some b.max_frame_bytes config_max_frame_bytes (
      if_some b.rss_hard_limit config_rss_hard_limit (
        if_some b.session_pool_capacity config_session_pool_capacity (
          if_some b.restart_policy config_restart_policy (
            if_some b.shutdown_timeout config_shutdown_timeout (
              if_some b.request_timeout config_request_timeout (
                if_some b.startup_timeout config_startup_timeout
                  (new_worker_config executable)))))))
