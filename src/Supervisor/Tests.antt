-- ===== src/Supervisor/Tests.antt =====
-- The supervisor's theorems at concrete workers.
use lean_rs.Common.{◌≡◌, ◌≤◌, refl, inl, true, some, [], ◌∷◌, arith}
use lean_rs.Supervisor.Types.{explicit, max_requests, restart_limit_exceeded, err}
use lean_rs.Supervisor.Stats.{record_restart}
use lean_rs.Supervisor.Stats.Causes.{by_cause, one_more_at, sum, by_cause-record_restart}
use lean_rs.Supervisor.Frame.{Ends}
use lean_rs.Supervisor.Shutdown.{kill_only, shutdown_child}
use lean_rs.Supervisor.Shutdown.Outcome.{shutdown_child-Ends}
use lean_rs.Supervisor.Restart.{admit_restart, restart_with_reason}
use lean_rs.Supervisor.Restart.Window.{
  count_recent, admissions, admit_restart-eq-count, admissions-bounded,
}
use lean_rs.Supervisor.Restart.Outcome.{Restarts, restart_with_reason-Restarts}
use lean_rs.Supervisor.Admission.{prepare_request}
use lean_rs.Supervisor.Admission.Prepared.{Admits, prepare_request-Admits}
use lean_rs.Supervisor.Reuse.{
  open_worker_session, reuse_hint_capacity, holds, note_open_session_key,
}
use lean_rs.Supervisor.Reuse.Bound.{Opens}
use lean_rs.Supervisor.Reuse.Opened.{open_worker_session-Opens}
use lean_rs.Supervisor.Reuse.Recent.{IsRecent, note_open_session_key-IsRecent}
use lean_rs.Supervisor.Samples.{
  small_policy-IsClamped, small_config, busy_worker, shims, quiet_shutdown, quiet_restart,
  quiet_admission, mispredicted,
}

restart_with_reason-Restarts_example :
    Restarts explicit quiet_restart
      (busy_worker [])
      (restart_with_reason explicit quiet_restart (busy_worker []))
restart_with_reason-Restarts_example =
    restart_with_reason-Restarts explicit quiet_restart (busy_worker []) (inl refl)

shutdown_child-Ends_example :
    Ends (busy_worker []) (shutdown_child kill_only quiet_shutdown (busy_worker []))
shutdown_child-Ends_example =
    shutdown_child-Ends kill_only quiet_shutdown (busy_worker []) (inl refl)

prepare_request-Admits_example : Admits true (prepare_request true quiet_admission (busy_worker []))
prepare_request-Admits_example =
    prepare_request-Admits true quiet_admission (busy_worker []) small_policy-IsClamped (inl refl)

open_worker_session-Opens_example :
    Opens (open_worker_session shims mispredicted (busy_worker (shims ∷ [])))
open_worker_session-Opens_example =
    open_worker_session-Opens shims mispredicted (busy_worker (shims ∷ [])) small_policy-IsClamped
      (inl refl) (omega arith)

note_open_session_key-IsRecent_example :
    IsRecent
      (reuse_hint_capacity small_config)
      shims
      (note_open_session_key shims (busy_worker (shims ∷ []))).open_session_keys
unfolding reuse_hint_capacity holds
note_open_session_key-IsRecent_example =
    note_open_session_key-IsRecent shims (busy_worker (shims ∷ [])) one_fits (refl, tt)
  where
    one_fits : 1 ≤ reuse_hint_capacity small_config
    one_fits = omega arith

admit_restart-eq-count_example :
    (admit_restart 100 (record (busy_worker []) { restart_window = 10 ∷ 90 ∷ [] })).0
    ≡ err (restart_limit_exceeded 2 100)
admit_restart-eq-count_example =
    admit_restart-eq-count 100 (record (busy_worker []) { restart_window = 10 ∷ 90 ∷ [] })
      ((omega arith, tt), (tt, tt))

admissions-bounded_example :
    count_recent 100 70 (admissions (10 ∷ 20 ∷ 70 ∷ []) (busy_worker [])) ≤ 2
admissions-bounded_example =
    admissions-bounded (10 ∷ 20 ∷ 70 ∷ []) (busy_worker []) 70 refl
      (omega arith, (omega arith, (omega arith, tt)))

by_cause-record_restart_example :
    (by_cause (record_restart (max_requests 3) (busy_worker []).stats)
      ≡ one_more_at (some 1) (by_cause (busy_worker []).stats))
    × ((record_restart (max_requests 3) (busy_worker []).stats).restarts ≡ 2)
    × (sum (by_cause (record_restart (max_requests 3) (busy_worker []).stats))
        ≤ (record_restart (max_requests 3) (busy_worker []).stats).restarts)
by_cause-record_restart_example =
    by_cause-record_restart (max_requests 3) (busy_worker []).stats (omega arith) (omega arith)
