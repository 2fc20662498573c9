-- ===== src/Capability/Worker/Within.antt =====
-- The bounds of the configuration that `spawn_checked_worker` of crates/lean-rs-worker-parent/src/capability.rs
-- starts a worker with.
use lean_rs.Common.{ℕ, String, ◌≡◌, refl, ◌∙◌, ◌≤◌, max, Option, none, some, arith}
use lean_rs.Common.Options.{get_or}
use lean_rs.Supervisor.Types.{nanos_per_milli}
use lean_rs.Supervisor.Policy.{LeanWorkerRestartPolicy}
use lean_rs.Supervisor.Worker.{LeanWorkerConfig}
use lean_rs.Capability.Builder.{LeanWorkerCapabilityBuilder, request_timeout_default}
use lean_rs.Capability.Session.{pool_request_timeout}
use lean_rs.Capability.Worker.{
  min_frame_bytes, frame_bytes_hard_cap, new_worker_config, ConfigStep, config_startup_timeout,
  config_request_timeout, config_shutdown_timeout, config_restart_policy,
  config_session_pool_capacity, config_rss_hard_limit, config_max_frame_bytes, if_some,
  spawn_config,
}

-- At least one, where it is set.
pub data IsPositive : Option ℕ → Type 0 where
  unset : IsPositive none
  set : (n : ℕ) → 1 ≤ n → IsPositive (some n)

-- Every knob within the bounds that the builder methods promise.
pub record IsWithin (c : LeanWorkerConfig) : Type 0 where
  pub frame_low : min_frame_bytes ≤ c.max_frame_bytes
  pub frame_high : c.max_frame_bytes ≤ frame_bytes_hard_cap
  pub capacity : IsPositive c.session_pool_capacity
  pub rss_limit : IsPositive c.rss_hard_limit_kib
  pub interval : nanos_per_milli ≤ c.rss_sample_interval

new_worker_config-IsWithin : (executable : String) → IsWithin (new_worker_config executable)
unfolding new_worker_config
new_worker_config-IsWithin executable = record {
  frame_low = omega arith;
  frame_high = omega arith;
  capacity = unset;
  rss_limit = unset;
  interval = omega arith;
}

if_some-IsWithin {ℓ} :
    {A : Type ℓ} (o : Option A) (step : A → ConfigStep) (c : LeanWorkerConfig)
    → ((a : A) (d : LeanWorkerConfig) → IsWithin d → IsWithin (step a d))
    → IsWithin c
    → IsWithin (if_some o step c)
if_some-IsWithin none step c keeps w = w
if_some-IsWithin (some a) step c keeps w = keeps a c w

timeout-IsWithin :
    (c d : LeanWorkerConfig)
    → c.max_frame_bytes ≡ d.max_frame_bytes
    → c.session_pool_capacity ≡ d.session_pool_capacity
    → c.rss_hard_limit_kib ≡ d.rss_hard_limit_kib
    → c.rss_sample_interval ≡ d.rss_sample_interval
    → IsWithin d
    → IsWithin c
timeout-IsWithin c d f p r i w = record {
  frame_low = omega (arith, f, w.frame_low);
  frame_high = omega (arith, f, w.frame_high);
  capacity = rw p w.capacity;
  rss_limit = rw r w.rss_limit;
  interval = omega (arith, i, w.interval);
}

startup-IsWithin :
    (t : ℕ) (c : LeanWorkerConfig) → IsWithin c → IsWithin (config_startup_timeout t c)
unfolding config_startup_timeout
startup-IsWithin t c w = timeout-IsWithin (config_startup_timeout t c) c refl refl refl refl w

request-IsWithin :
    (t : ℕ) (c : LeanWorkerConfig) → IsWithin c → IsWithin (config_request_timeout t c)
unfolding config_request_timeout
request-IsWithin t c w = timeout-IsWithin (config_request_timeout t c) c refl refl refl refl w

shutdown-IsWithin :
    (t : ℕ) (c : LeanWorkerConfig) → IsWithin c → IsWithin (config_shutdown_timeout t c)
unfolding config_shutdown_timeout
shutdown-IsWithin t c w = timeout-IsWithin (config_shutdown_timeout t c) c refl refl refl refl w

policy-IsWithin :
    (p : LeanWorkerRestartPolicy) (c : LeanWorkerConfig)
    → IsWithin c
    → IsWithin (config_restart_policy p c)
unfolding config_restart_policy
policy-IsWithin p c w = timeout-IsWithin (config_restart_policy p c) c refl refl refl refl w

capacity-IsWithin :
    (n : ℕ) (c : LeanWorkerConfig) → IsWithin c → IsWithin (config_session_pool_capacity n c)
unfolding config_session_pool_capacity
capacity-IsWithin n c w = record {
  frame_low = w.frame_low;
  frame_high = w.frame_high;
  capacity = set (max n 1) (omega arith);
  rss_limit = w.rss_limit;
  interval = w.interval;
}

rss-IsWithin :
    (x : ℕ × ℕ) (c : LeanWorkerConfig) → IsWithin c → IsWithin (config_rss_hard_limit x c)
unfolding config_rss_hard_limit
rss-IsWithin (limit, every) c w = record {
  frame_low = w.frame_low;
  frame_high = w.frame_high;
  capacity = w.capacity;
  rss_limit = set (max limit 1) (omega arith);
  interval = omega arith;
}

frame-IsWithin : (n : ℕ) (c : LeanWorkerConfig) → IsWithin c → IsWithin (config_max_frame_bytes n c)
unfolding config_max_frame_bytes
frame-IsWithin n c w = record {
  frame_low = omega arith;
  frame_high = omega arith;
  capacity = w.capacity;
  rss_limit = w.rss_limit;
  interval = w.interval;
}

-- A step that leaves the request timeout as it is.
kept_timeout {ℓ} :
    {A : Type ℓ} (o : Option A) (step : A → ConfigStep) (c : LeanWorkerConfig)
    → ((a : A) (d : LeanWorkerConfig) → (step a d).request_timeout ≡ d.request_timeout)
    → (if_some o step c).request_timeout ≡ c.request_timeout
kept_timeout none step c keeps = refl
kept_timeout (some a) step c keeps = keeps a c

chosen_timeout :
    (o : Option ℕ) (c : LeanWorkerConfig)
    → c.request_timeout ≡ request_timeout_default
    → (if_some o config_request_timeout c).request_timeout ≡ get_or o request_timeout_default
unfolding config_request_timeout
chosen_timeout none c h = h
chosen_timeout (some t) c h = refl

module _ {Built : Type 0} (executable : String) (b : LeanWorkerCapabilityBuilder Built) where
  spawn_config-IsWithin : IsWithin (spawn_config executable b)
  unfolding spawn_config
  spawn_config-IsWithin =
      if_some-IsWithin b.max_frame_bytes config_max_frame_bytes _ frame-IsWithin (
        if_some-IsWithin b.rss_hard_limit config_rss_hard_limit _ rss-IsWithin (
          if_some-IsWithin b.session_pool_capacity config_session_pool_capacity _ capacity-IsWithin
            (if_some-IsWithin b.restart_policy config_restart_policy _ policy-IsWithin (
              if_some-IsWithin b.shutdown_timeout config_shutdown_timeout _ shutdown-IsWithin (
                if_some-IsWithin b.request_timeout config_request_timeout _ request-IsWithin (
                  if_some-IsWithin b.startup_timeout config_startup_timeout _ startup-IsWithin
                    (new_worker_config-IsWithin executable)))))))

  spawn_config-request_timeout :
      (spawn_config executable b).request_timeout ≡ pool_request_timeout b
  unfolding spawn_config pool_request_timeout new_worker_config config_startup_timeout
      config_shutdown_timeout config_restart_policy config_session_pool_capacity
      config_rss_hard_limit config_max_frame_bytes
  spawn_config-request_timeout =
      kept_timeout b.max_frame_bytes config_max_frame_bytes
        (if_some b.rss_hard_limit config_rss_hard_limit (
          if_some b.session_pool_capacity config_session_pool_capacity (
            if_some b.restart_policy config_restart_policy (
              if_some b.shutdown_timeout config_shutdown_timeout (
                if_some b.request_timeout config_request_timeout (
                  if_some b.startup_timeout config_startup_timeout
                    (new_worker_config executable)))))))
        (λ a d. refl)
      ∙ kept_timeout b.rss_hard_limit config_rss_hard_limit
          (if_some b.session_pool_capacity config_session_pool_capacity (
            if_some b.restart_policy config_restart_policy (
              if_some b.shutdown_timeout config_shutdown_timeout (
                if_some b.request_timeout config_request_timeout (
                  if_some b.startup_timeout config_startup_timeout
                    (new_worker_config executable))))))
          (λ a d. refl)
      ∙ kept_timeout b.session_pool_capacity config_session_pool_capacity
          (if_some b.restart_policy config_restart_policy (
            if_some b.shutdown_timeout config_shutdown_timeout (
              if_some b.request_timeout config_request_timeout
                (if_some b.startup_timeout config_startup_timeout (new_worker_config executable)))))
          (λ a d. refl)
      ∙ kept_timeout b.restart_policy config_restart_policy
          (if_some b.shutdown_timeout config_shutdown_timeout (
            if_some b.request_timeout config_request_timeout
              (if_some b.startup_timeout config_startup_timeout (new_worker_config executable))))
          (λ a d. refl)
      ∙ kept_timeout b.shutdown_timeout config_shutdown_timeout
          (if_some b.request_timeout config_request_timeout
            (if_some b.startup_timeout config_startup_timeout (new_worker_config executable)))
          (λ a d. refl)
      ∙ chosen_timeout b.request_timeout
          (if_some b.startup_timeout config_startup_timeout (new_worker_config executable))
          (kept_timeout b.startup_timeout config_startup_timeout (new_worker_config executable)
            (λ a d. refl))

  -- For every builder, the worker that spawn_checked_worker starts has a frame limit between 64 KiB and 256 MiB,
  -- a positive pool capacity and RSS limit where they are set, an RSS sample interval of at least one
  -- millisecond, and the request timeout that the pool takes the builder to have.
  pub spawn_config-agrees :
      IsWithin (spawn_config executable b)
      × ((spawn_config executable b).request_timeout ≡ pool_request_timeout b)
  spawn_config-agrees = (spawn_config-IsWithin, spawn_config-request_timeout)
