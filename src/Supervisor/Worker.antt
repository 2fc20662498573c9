-- ===== src/Supervisor/Worker.antt =====
-- crates/lean-rs-worker-parent/src/supervisor.rs: `LeanWorker`, its lifecycle state, the poll of the
-- child process and the requests in flight. A method is a function from the worker to its result and
-- the worker that it leaves, also when it fails. What the operating system answers is an argument.
use lean_rs.Common.{ℕ, String, Bool, true, false, Option, none, some, List, sat_inc, if◌then◌else◌}
use lean_rs.Common.Options
use lean_rs.Supervisor.Types.{
  IoError, LeanWorkerExit, LeanWorkerRestartReason, LeanWorkerError, child_exited,
  child_panic_or_abort, wait, shutdown_in_progress, Result, ok, err,
}
use lean_rs.Supervisor.Policy.{LeanWorkerRestartPolicy, GenerationBudget}
use lean_rs.Supervisor.Stats.{LeanWorkerStats}
use lean_rs.Supervisor.Session.{LeanWorkerSessionConfig}

pub record LeanWorkerConfig : Type 0 where
  pub executable : String
  pub startup_timeout : ℕ
  pub request_timeout : ℕ
  pub shutdown_timeout : ℕ
  pub restart_policy : LeanWorkerRestartPolicy
  pub session_pool_capacity : Option ℕ
  pub rss_hard_limit_kib : Option ℕ
  pub rss_sample_interval : ℕ
  pub max_frame_bytes : ℕ

pub record InFlightRequest : Type 0 where
  pub id : ℕ
  pub operation : String
  pub generation : ℕ

pub data WorkerSupervisorState : Type 0 where
  idle : ℕ → WorkerSupervisorState
  busy : InFlightRequest → WorkerSupervisorState
  streaming : InFlightRequest → WorkerSupervisorState
  stopping killing reaping crashed restart_exhausted exited : ℕ → WorkerSupervisorState

unfoldable pub rejects_new_requests : WorkerSupervisorState → Bool
rejects_new_requests (stopping _) = true
rejects_new_requests (killing _) = true
rejects_new_requests (reaping _) = true
rejects_new_requests (restart_exhausted _) = true
rejects_new_requests _ = false

unfoldable pub current_operation : WorkerSupervisorState → Option String
current_operation (busy r) = some r.operation
current_operation (streaming r) = some r.operation
current_operation _ = none

unfoldable pub current_request_id : WorkerSupervisorState → Option ℕ
current_request_id (busy r) = some r.id
current_request_id (streaming r) = some r.id
current_request_id _ = none

-- `child` is the id of the live process; the pipes are held or taken.
pub record LeanWorker : Type 0 where
  pub config : LeanWorkerConfig
  pub child : Option ℕ
  pub stdin : Bool
  pub stdout : Bool
  pub stderr : Bool
  pub last_exit : Option LeanWorkerExit
  pub stats : LeanWorkerStats
  pub budget : GenerationBudget
  pub open_session_keys : List LeanWorkerSessionConfig
  pub reuse_hint_enabled : Bool
  pub reuse_observed : Bool
  pub pending_restart : Option LeanWorkerRestartReason
  pub last_activity : ℕ
  pub generation : ℕ
  pub next_request_id : ℕ
  pub restart_window : List ℕ
  pub state : WorkerSupervisorState

abbrev pub Method {ℓ} : Type ℓ → Type ℓ
Method A = LeanWorker → Result A × LeanWorker

abbrev pub then_call {ℓ κ} :
    {A : Type ℓ} {B : Type κ} → (A → Method B) → Result A × LeanWorker → Result B × LeanWorker
then_call f (ok a, w) = f a w
then_call f (err e, w) = (err e, w)

infixl 5 ◌>>=◌ ◌>>◌
abbrev pub ◌>>=◌ {ℓ κ} : {A : Type ℓ} {B : Type κ} → Method A → (A → Method B) → Method B
◌>>=◌ m f w = then_call f (m w)

abbrev pub ◌>>◌ {ℓ} : {B : Type ℓ} → Method (Unit {0}) → Method B → Method B
m >> k = m >>= λ _. k

abbrev pub pure {ℓ} : {A : Type ℓ} → A → Method A
pure a w = (ok a, w)

abbrev pub fail {ℓ} : {A : Type ℓ} → LeanWorkerError → Method A
fail e w = (err e, w)

-- `ExitStatus`, as the parent renders it.
pub record ExitStatus : Type 0 where
  pub success : Bool
  pub code : Option ℕ
  pub rendered : String

-- `LeanWorkerExit::from_status`.
unfoldable pub from_status : ExitStatus → String → LeanWorkerExit
from_status s diagnostics = record {
  success = s.success;
  code = s.code;
  status = s.rendered;
  diagnostics = diagnostics;
}

-- What `try_wait` answers: still running, an exit status with what the stderr pipe then holds, or a
-- failed call.
pub data Poll : Type 0 where
  running : Poll
  exits : ExitStatus → String → Poll
  wait_fails : IoError → Poll

pub data LeanWorkerStatus : Type 0 where
  running : LeanWorkerStatus
  exited : LeanWorkerExit → LeanWorkerStatus

abbrev pub not_running : LeanWorkerExit
not_running = record {
  success = false;
  code = none;
  status = "worker is not running";
  diagnostics = "";
}

-- The pipe is drained once.
unfoldable pub read_stderr : Bool → String → String
read_stderr true text = text
read_stderr false text = ""

unfoldable pub reap : ExitStatus → String → LeanWorker → LeanWorkerExit × LeanWorker
unfolding from_status read_stderr
reap s text w =
    let exit = from_status s (read_stderr w.stderr text) in
    (
      exit,
      record w {
        last_exit = some exit;
        child = none;
        stdin = false;
        stdout = false;
        stderr = false;
        stats = record w.stats { exits = sat_inc w.stats.exits };
        state = WorkerSupervisorState.exited w.generation;
      },
    )

unfoldable pub poll_child : Poll → Method LeanWorkerStatus
unfolding reap
poll_child running w = (ok running, w)
poll_child (wait_fails e) w = (err (wait e), w)
poll_child (exits s text) w = let (exit, w') = reap s text w in (ok (exited exit), w')

unfoldable pub gone : LeanWorkerExit → Method LeanWorkerStatus
gone exit w = (ok (exited exit), record w { state = WorkerSupervisorState.exited w.generation })

unfoldable pub status_given : Option LeanWorkerExit → Option ℕ → Poll → Method LeanWorkerStatus
unfolding gone poll_child
status_given (some exit) child poll = gone exit
status_given none none poll = gone not_running
status_given none (some pid) poll = poll_child poll

-- `LeanWorker::status`.
unfoldable pub status : Poll → Method LeanWorkerStatus
unfolding status_given
status poll w = status_given w.last_exit w.child poll w

unfoldable pub exit_error : LeanWorkerExit → LeanWorkerError
exit_error exit = if exit.success then child_exited exit else child_panic_or_abort exit

unfoldable pub require_running : LeanWorkerStatus → Method (Unit {0})
unfolding exit_error
require_running running = pure tt
require_running (exited exit) = fail (exit_error exit)

-- `LeanWorker::ensure_running`.
unfoldable pub ensure_running : Poll → Method (Unit {0})
unfolding require_running status rejects_new_requests current_operation
ensure_running poll w =
    if rejects_new_requests w.state
    then (
      err (shutdown_in_progress (Options.get_or (current_operation w.state) "worker_request")),
      w,
    )
    else ((do s ← status poll; require_running s) w)

-- `LeanWorker::dead_error`.
unfoldable pub dead_error : LeanWorker → LeanWorkerError
unfolding exit_error
dead_error w = exit_error (Options.get_or w.last_exit not_running)

-- `LeanWorker::child_rss_kib`, with the sample that the platform gives for a live process.
unfoldable pub child_rss_kib : LeanWorker → Option ℕ → Option ℕ
child_rss_kib w sample = elim w.child [ none ↦ none | some pid ↦ sample ]

-- `LeanWorker::begin_in_flight`.
unfoldable pub begin_in_flight : String → LeanWorker → InFlightRequest × LeanWorker
begin_in_flight operation w =
    let request : InFlightRequest = record {
      id = w.next_request_id;
      operation = operation;
      generation = w.generation;
    } in
    (request, record w { next_request_id = sat_inc w.next_request_id; state = busy request })

unfoldable pub mark_streaming : WorkerSupervisorState → WorkerSupervisorState
mark_streaming (busy r) = streaming r
mark_streaming (streaming r) = streaming r
mark_streaming s = s

-- `LeanWorker::mark_current_request_streaming`.
unfoldable pub mark_current_request_streaming : LeanWorker → LeanWorker
unfolding mark_streaming
mark_current_request_streaming w = record w { state = mark_streaming w.state }

unfoldable pub finish_state : ℕ → WorkerSupervisorState → WorkerSupervisorState
finish_state generation (busy r) = idle generation
finish_state generation (streaming r) = idle generation
finish_state generation s = s

-- `LeanWorker::finish_in_flight`.
unfoldable pub finish_in_flight : LeanWorker → LeanWorker
unfolding finish_state
finish_in_flight w = record w { state = finish_state w.generation w.state }
