-- ===== src/Supervisor/Admission.antt =====
-- crates/lean-rs-worker-parent/src/supervisor.rs: what happens before a request goes out, and what is
-- counted once it has.
pub mod Prepared
use lean_rs.Common.{
  ℕ, ◌-◌, String, Bool, true, false, ◌&&◌, Option, none, some, leb, ltb, ◌==◌, sat_inc,
  if◌then◌else◌,
}
use lean_rs.Protocol.Message.{LeanWorkerImportStats}
use lean_rs.Supervisor.Types.{
  LeanWorkerRestartReason, rss_ceiling, LeanWorkerError, cancelled, Result, ok, err,
  pre_dispatch_cancelled_resource,
}
use lean_rs.Supervisor.Policy.{
  budget_record_request, budget_record_import, import_limit_reached, request_limit_reached,
}
use lean_rs.Supervisor.Stats.{LeanWorkerStats}
use lean_rs.Supervisor.Worker.{
  LeanWorker, Method, ◌>>=◌, ◌>>◌, pure, Poll, ensure_running, child_rss_kib, then_call,
}
use lean_rs.Supervisor.Restart.{RestartEnv, restart_with_reason}

-- What one admission observes: the child, its RSS at each of the two samples, the clock at the idle
-- check, and the replacement, if there is one.
pub record AdmissionEnv : Type 0 where
  pub poll : Poll
  pub rss_before : Option ℕ
  pub rss : Option ℕ
  pub now : ℕ
  pub restart : RestartEnv

-- `check_cancelled` of session.rs, with what the token answers.
unfoldable pub check_cancelled : String → Bool → Method (Unit {0})
check_cancelled operation false w = (ok tt, w)
check_cancelled operation true w =
    (err (cancelled operation (pre_dispatch_cancelled_resource operation)), w)

with_stats : (LeanWorkerStats → LeanWorkerStats) → LeanWorker → LeanWorker
with_stats f w = record w { stats = f w.stats }

count_attempt : Bool → Option ℕ → Method (Unit {0})
unfolding with_stats
count_attempt false sample w = (ok tt, w)
count_attempt true sample w = (
  ok tt,
  record w {
    stats = record w.stats {
      import_like_admission_attempts = sat_inc w.stats.import_like_admission_attempts;
      last_import_like_rss_before_admission_kib = child_rss_kib w sample;
    };
  },
)

count_admitted : Bool → Method (Unit {0})
count_admitted false w = (ok tt, w)
count_admitted true w = (
  ok tt,
  record w {
    stats = record w.stats { import_like_admitted = sat_inc w.stats.import_like_admitted };
  },
)

restart_and_admit : Bool → RestartEnv → LeanWorkerRestartReason → Method (Unit {0})
unfolding count_admitted
restart_and_admit import_like env reason = do
  restart_with_reason reason env
  count_admitted import_like

note_rss : Option ℕ → LeanWorker → LeanWorker
note_rss (some kib) w = record w { stats = record w.stats { last_rss_kib = some kib } }
note_rss none w = record w {
  stats = record w.stats { rss_samples_unavailable = sat_inc w.stats.rss_samples_unavailable };
}

-- The reason to cycle for RSS, where a ceiling is set and a sample reaches it.
rss_reason : Option ℕ → Option ℕ → Option LeanWorkerImportStats → Option LeanWorkerRestartReason
rss_reason none sample stats = none
rss_reason (some limit) none stats = none
rss_reason (some limit) (some current) stats =
    if leb limit current then some (rss_ceiling current limit stats) else none

noting_rss : Option ℕ → Option ℕ → LeanWorker → LeanWorker
unfolding note_rss
noting_rss none sample w = w
noting_rss (some limit) sample w = note_rss sample w

idle_reason : Option ℕ → ℕ → Option LeanWorkerRestartReason
idle_reason none idle_for = none
idle_reason (some limit) idle_for =
    if leb limit idle_for then some (LeanWorkerRestartReason.idle idle_for limit) else none

-- Restart for the reason, if there is one; otherwise go on.
or_restart :
    Bool → RestartEnv → Option LeanWorkerRestartReason → Method (Unit {0}) → Method (Unit {0})
unfolding restart_and_admit
or_restart import_like env (some reason) next = restart_and_admit import_like env reason
or_restart import_like env none next = next

import_reason : Bool → LeanWorker → Option LeanWorkerRestartReason
import_reason false w = none
import_reason true w = import_limit_reached w.budget w.config.restart_policy

check_idle : Bool → AdmissionEnv → Method (Unit {0})
unfolding or_restart idle_reason count_admitted
check_idle import_like env w =
    or_restart import_like env.restart
      (idle_reason w.config.restart_policy.idle_restart_after (env.now - w.last_activity))
      (count_admitted import_like) w

check_rss : Bool → AdmissionEnv → Method (Unit {0})
unfolding or_restart rss_reason noting_rss check_idle
check_rss import_like env w =
    let limit = w.config.restart_policy.max_rss_kib in
    let sample = child_rss_kib w env.rss in
    or_restart import_like env.restart (rss_reason limit sample w.stats.last_import_stats)
      (check_idle import_like env) (noting_rss limit sample w)

check_limits : Bool → AdmissionEnv → Method (Unit {0})
unfolding or_restart import_reason check_rss
check_limits import_like env w =
    or_restart import_like env.restart (request_limit_reached w.budget w.config.restart_policy)
      (or_restart import_like env.restart (import_reason import_like w) (check_rss import_like env))
      w

-- `LeanWorker::prepare_request`.
unfoldable pub prepare_request : Bool → AdmissionEnv → Method (Unit {0})
unfolding count_attempt check_limits
prepare_request import_like env = do
  ensure_running env.poll
  count_attempt import_like env.rss_before
  check_limits import_like env

-- `LeanWorker::record_request`.
unfoldable pub record_request : Bool → ℕ → LeanWorker → LeanWorker
record_request import_like now w = record w {
  stats = record w.stats {
    requests = sat_inc w.stats.requests;
    imports = if import_like then sat_inc w.stats.imports else w.stats.imports;
  };
  budget = budget_record_request import_like w.budget;
  last_activity = now;
}

-- `LeanWorker::record_import`.
unfoldable pub record_import : LeanWorkerImportStats → LeanWorker → LeanWorker
record_import stats w = record w {
  stats = record w.stats {
    imports = sat_inc w.stats.imports;
    import_stats_unusable =
        if ltb 0 stats.effective_module_count && stats.compacted_region_bytes == 0
        then sat_inc w.stats.import_stats_unusable
        else w.stats.import_stats_unusable;
  };
  budget = budget_record_import stats w.budget;
}
