-- ===== src/Capability/Child.antt =====
-- crates/lean-rs-worker-parent/src/capability.rs: `LeanWorkerChild`, where the worker's executable is, and
-- `LeanWorkerModuleCacheLimits` with its builder methods.
use lean_rs.Common.{ℕ, String, max, Option, none, some}
use lean_rs.Supervisor.Types.{duration_ms}

pub record LeanWorkerChild : Type 0 where
  pub executable_name : Option String
  pub explicit_path : Option String
  pub env_var : Option String
  pub lean_sysroot : Option String

-- `LeanWorkerChild::path`.
unfoldable pub child_path : String → LeanWorkerChild
child_path path = record {
  executable_name = none;
  explicit_path = some path;
  env_var = none;
  lean_sysroot = none;
}

pub record LeanWorkerModuleCacheLimits : Type 0 where
  pub max_entries : Option ℕ
  pub ttl_millis : Option ℕ
  pub max_bytes : Option ℕ
  pub rss_guard_kib : Option ℕ
  pub verify_rss_taint_kib : Option ℕ

unfoldable pub limit_max_entries : ℕ → LeanWorkerModuleCacheLimits → LeanWorkerModuleCacheLimits
limit_max_entries n l = record l { max_entries = some (max n 1) }

unfoldable pub limit_ttl : ℕ → LeanWorkerModuleCacheLimits → LeanWorkerModuleCacheLimits
unfolding duration_ms
limit_ttl ttl l = record l { ttl_millis = some (max (duration_ms ttl) 1) }

unfoldable pub limit_max_bytes : ℕ → LeanWorkerModuleCacheLimits → LeanWorkerModuleCacheLimits
limit_max_bytes n l = record l { max_bytes = some (max n 1) }

unfoldable pub limit_rss_guard_kib : ℕ → LeanWorkerModuleCacheLimits → LeanWorkerModuleCacheLimits
limit_rss_guard_kib n l = record l { rss_guard_kib = some n }

unfoldable pub limit_verify_rss_taint_kib :
    ℕ → LeanWorkerModuleCacheLimits → LeanWorkerModuleCacheLimits
limit_verify_rss_taint_kib n l = record l { verify_rss_taint_kib = some n }
