-- ===== src/Supervisor/Shutdown.antt =====
-- crates/lean-rs-worker-parent/src/supervisor.rs: the bounded shutdown of a child. What the child and
-- the pipes do is a trace: one entry for each round of the loop that watches them. A trace ends in
-- an exit or a failed wait, and a loop that reaches its deadline first reads no further.
pub mod Outcome
use lean_rs.Common.{
  ℕ, ◌-◌, String, Bool, true, false, Option, none, some, [], ◌∷◌, leb, sat_inc, if◌then◌else◌,
}
use lean_rs.Supervisor.Types.{
  IoError, lit, LeanWorkerExit, LeanWorkerError, protocol, worker, wait, kill, wait_timeout, Result,
  ok, err,
}
use lean_rs.Supervisor.Worker.{
  LeanWorker, Method, ExitStatus, from_status, read_stderr, stopping, killing, reaping, Poll,
  LeanWorkerStatus, running, exited, status, dead_error, finish_in_flight, then_call, ◌>>=◌, ◌>>◌,
  pure, fail,
}
use lean_rs.Supervisor.Worker

pub data LeanWorkerShutdownOutcome : Type 0 where
  already_exited graceful graceful_timed_out_killed : LeanWorkerShutdownOutcome
  graceful_protocol_failed_killed kill_only : LeanWorkerShutdownOutcome

-- `LeanWorkerShutdownReport` without the three measured durations.
pub record LeanWorkerShutdownReport : Type 0 where
  pub outcome : LeanWorkerShutdownOutcome
  pub exit : LeanWorkerExit
  pub graceful_timeout : ℕ

pub data ShutdownIntent : Type 0 where
  graceful kill_only : ShutdownIntent

-- Five seconds.
abbrev pub kill_wait_timeout : ℕ
kill_wait_timeout = 5000000000

-- The rounds of `wait_for_exit_bounded`, with the time since it began.
pub data WaitTrace : Type 0 where
  pending : ℕ → WaitTrace → WaitTrace
  exits : ExitStatus → String → WaitTrace
  wait_fails : IoError → WaitTrace

-- What `child.kill()` and the wait after it answer.
pub record KillEnv : Type 0 where
  pub error : Option IoError
  pub after : WaitTrace

-- One receive of `wait_for_graceful_shutdown`. After the child's last word, the time since the grace
-- period began and the wait for its exit.
pub data Received : Type 0 where
  terminating : ℕ → WaitTrace → Received
  end_of_file : ℕ → WaitTrace → Received
  other_response read_error disconnected event timed_out : Received

pub data GraceTrace : Type 0 where
  round : ℕ → Received → GraceTrace → GraceTrace
  exits : ExitStatus → String → GraceTrace
  wait_fails : IoError → GraceTrace

-- What one shutdown observes; `write` is the error of the `Terminate` frame, if it fails.
pub record ShutdownEnv : Type 0 where
  pub poll : Poll
  pub write : Option String
  pub grace : GraceTrace
  pub killing : KillEnv

-- `LeanWorker::finalize_child_exit`.
unfoldable pub finalize_child_exit : ExitStatus → String → LeanWorker → LeanWorkerExit × LeanWorker
unfolding from_status read_stderr finish_in_flight
finalize_child_exit s text w =
    let exit = from_status s (read_stderr w.stderr text) in
    let w' = finish_in_flight (record w {
      last_exit = some exit;
      child = none;
      stdin = false;
      stdout = false;
      stderr = false;
    }) in
    (
      exit,
      record w' {
        state = Worker.WorkerSupervisorState.exited w'.generation;
        stats = record w'.stats { exits = sat_inc w'.stats.exits };
      },
    )

unfoldable pub finalized : ExitStatus → String → Method LeanWorkerExit
unfolding finalize_child_exit
finalized s text w = let (exit, w') = finalize_child_exit s text w in (ok exit, w')

unfoldable pub given_child {ℓ} : {A : Type ℓ} → Option ℕ → Method A → Method A
given_child none m w = (err (dead_error w), w)
given_child (some pid) m w = m w

unfoldable pub with_child {ℓ} : {A : Type ℓ} → Method A → Method A
unfolding given_child
with_child m w = given_child w.child m w

unfoldable pub reaping_worker : LeanWorker → LeanWorker
reaping_worker w = record w { state = reaping w.generation }

-- `LeanWorker::wait_for_exit_bounded`.
unfoldable pub wait_for_exit_bounded : String → ℕ → WaitTrace → Method LeanWorkerExit
unfolding finalized with_child reaping_worker
wait_for_exit_bounded operation timeout (exits s text) =
    with_child (λ w. finalized s text (reaping_worker w))
wait_for_exit_bounded operation timeout (wait_fails e) =
    with_child (λ w. (err (wait e), reaping_worker w))
wait_for_exit_bounded operation timeout (pending elapsed rest) =
    let again = wait_for_exit_bounded operation timeout rest in
    with_child (λ w.
      if leb timeout elapsed
      then (err (wait_timeout operation timeout), reaping_worker w)
      else again (reaping_worker w))

-- `child.kill()` where there is a child.
kill_given : Option ℕ → Option IoError → Method (Unit {0})
kill_given (some pid) (some e) w = (err (kill e), w)
kill_given _ _ w = (ok tt, w)

kill_child : Option IoError → Method (Unit {0})
unfolding kill_given
kill_child error w = kill_given w.child error w

kill_and_wait : KillEnv → Method LeanWorkerExit
unfolding kill_child wait_for_exit_bounded
kill_and_wait env = do
  kill_child env.error
  wait_for_exit_bounded "kill_wait" kill_wait_timeout env.after

report : LeanWorkerShutdownOutcome → LeanWorkerExit → Method LeanWorkerShutdownReport
report outcome exit w = (
  ok (record { outcome = outcome; exit = exit; graceful_timeout = w.config.shutdown_timeout }),
  w,
)

-- `LeanWorker::kill_and_report`.
unfoldable pub kill_and_report :
    LeanWorkerShutdownOutcome → KillEnv → Method LeanWorkerShutdownReport
unfolding kill_and_wait report
kill_and_report outcome env w =
    ((do exit ← kill_and_wait env; report outcome exit) (record w { state = killing w.generation }))

-- The child has said its last word: it has what is left of the grace period to exit.
end_grace :
    KillEnv → Result LeanWorkerExit × LeanWorker → Result LeanWorkerShutdownReport × LeanWorker
unfolding kill_and_report
end_grace env (ok exit, w) = report LeanWorkerShutdownOutcome.graceful exit w
end_grace env (err (wait_timeout _ _), w) =
    kill_and_report LeanWorkerShutdownOutcome.graceful_timed_out_killed env w
end_grace env (err e, w) = (err e, w)

-- The timeout of the grace period, inside the loop.
overdue : KillEnv → Method LeanWorkerShutdownReport
unfolding kill_and_wait report
overdue env = do
  exit ← kill_and_wait env
  report LeanWorkerShutdownOutcome.graceful_timed_out_killed exit

hold_stdout : LeanWorker → LeanWorker
hold_stdout w = record w { stdout = true }

on_received : KillEnv → Received → Method LeanWorkerShutdownReport → Method LeanWorkerShutdownReport
unfolding end_grace hold_stdout
on_received env (terminating elapsed after) again w =
    end_grace env
      (wait_for_exit_bounded "shutdown" (w.config.shutdown_timeout - elapsed) after (hold_stdout w))
on_received env (end_of_file elapsed after) again w =
    end_grace env (wait_for_exit_bounded "shutdown" (w.config.shutdown_timeout - elapsed) after w)
on_received env other_response again w =
    kill_and_report LeanWorkerShutdownOutcome.graceful_protocol_failed_killed env (hold_stdout w)
on_received env read_error again w =
    kill_and_report LeanWorkerShutdownOutcome.graceful_protocol_failed_killed env w
on_received env disconnected again w =
    kill_and_report LeanWorkerShutdownOutcome.graceful_protocol_failed_killed env w
on_received env event again w = again w
on_received env timed_out again w = again w

grace_loop : KillEnv → GraceTrace → Method LeanWorkerShutdownReport
unfolding finalized report overdue on_received
grace_loop env (exits s text) = do
  exit ← finalized s text
  report LeanWorkerShutdownOutcome.graceful exit
grace_loop env (wait_fails e) = fail (wait e)
grace_loop env (round elapsed received rest) =
    let again = grace_loop env rest in
    λ w.
      if leb w.config.shutdown_timeout elapsed
      then overdue env w
      else on_received env received again w

-- `LeanWorker::wait_for_graceful_shutdown`.
unfoldable pub wait_for_graceful_shutdown : KillEnv → GraceTrace → Method LeanWorkerShutdownReport
unfolding grace_loop
wait_for_graceful_shutdown env trace w =
    if w.stdout then grace_loop env trace (record w { stdout = false }) else (err (dead_error w), w)

-- `LeanWorker::write_request`, with the error of the frame, if it fails.
unfoldable pub write_request : Option String → Method (Unit {0})
write_request none w = if w.stdin then (ok tt, w) else (err (dead_error w), w)
write_request (some message) w =
    if w.stdin then (err (protocol (lit message ∷ [])), w) else (err (dead_error w), w)

after_terminate :
    ShutdownEnv → Result (Unit {0}) × LeanWorker → Result LeanWorkerShutdownReport × LeanWorker
unfolding wait_for_graceful_shutdown kill_and_report
after_terminate env (ok _, w) = wait_for_graceful_shutdown env.killing env.grace w
after_terminate env (err (protocol _), w) =
    kill_and_report LeanWorkerShutdownOutcome.graceful_protocol_failed_killed env.killing w
after_terminate env (err (worker _ _), w) =
    kill_and_report LeanWorkerShutdownOutcome.graceful_protocol_failed_killed env.killing w
after_terminate env (err e, w) = (err e, w)

stop_running : ShutdownIntent → ShutdownEnv → Method LeanWorkerShutdownReport
unfolding after_terminate write_request
stop_running graceful env w =
    after_terminate env
      (write_request env.write (finish_in_flight (record w { state = stopping w.generation })))
stop_running kill_only env w =
    kill_and_report LeanWorkerShutdownOutcome.kill_only env.killing
      (finish_in_flight (record w { state = killing w.generation }))

stop_by_status : ShutdownIntent → ShutdownEnv → LeanWorkerStatus → Method LeanWorkerShutdownReport
unfolding stop_running report
stop_by_status intent env (exited exit) = report LeanWorkerShutdownOutcome.already_exited exit
stop_by_status intent env running = stop_running intent env

-- `LeanWorker::shutdown_child`.
unfoldable pub shutdown_child : ShutdownIntent → ShutdownEnv → Method LeanWorkerShutdownReport
unfolding stop_by_status status
shutdown_child intent env = do s ← status env.poll; stop_by_status intent env s
