-- ===== src/Supervisor/Shutdown/Outcome.antt =====
-- What a shutdown leaves behind, on every path: `shutdown_child` of
-- crates/lean-rs-worker-parent/src/supervisor.rs.
use lean_rs.Common.{
  arith, ◌-◌, ℕ, ◌≡◌, refl, inr, String, true, false, Option, none, some, leb, if_rule,
}
use lean_rs.Supervisor.Types.{
  IoError, LeanWorkerExit, protocol, worker, Result, ok, err, wait_timeout,
}
use lean_rs.Supervisor.Frame.{
  IsCoherent, Frame, Frame-refl, Keeps, Ends, then_call-Ends, restate, reopen,
}
use lean_rs.Supervisor.Worker
use lean_rs.Supervisor.Worker.{
  LeanWorker, Method, Poll, then_call, status_given, status, finish_in_flight, finish_state,
}
use lean_rs.Supervisor.Shutdown.{
  WaitTrace, pending, exits, wait_fails, KillEnv, ShutdownIntent, graceful, kill_only, ShutdownEnv,
  finalized, given_child, wait_for_exit_bounded, kill_given, kill_child, kill_and_wait,
  kill_wait_timeout, report, kill_and_report, end_grace, on_received, overdue, grace_loop,
  GraceTrace, round, Received, terminating, end_of_file, other_response, read_error, disconnected,
  event, timed_out, wait_for_graceful_shutdown, write_request, after_terminate, stop_running,
  stop_by_status, LeanWorkerShutdownOutcome, LeanWorkerShutdownReport, shutdown_child,
}

report-Ends :
    (u : LeanWorker) (outcome : LeanWorkerShutdownOutcome) (r : Result LeanWorkerExit × LeanWorker)
    → Ends u r
    → Ends u (then_call (report outcome) r)
unfolding report
report-Ends u outcome (ok a, w) h = h
report-Ends u outcome (err e, w) h = h

given_child-Ends {ℓ} :
    {A : Type ℓ} (u : LeanWorker) (c : Option ℕ) (m : Method A) (w : LeanWorker)
    → Frame u w
    → Ends u (m w)
    → Ends u (given_child c m w)
unfolding given_child
given_child-Ends u none m w f h = (f, tt)
given_child-Ends u (some pid) m w f h = h

finalized-Ends :
    (u : LeanWorker) (s : Worker.ExitStatus) (text : String) (w : LeanWorker)
    → Frame u w
    → Ends u (finalized s text w)
unfolding finalized
finalized-Ends u s text w f = (
  record {
    config = f.config;
    budget = f.budget;
    generation = f.generation;
    next_request_id = f.next_request_id;
    restart_window = f.restart_window;
    restarts = f.restarts;
    pending = f.pending;
    attempts = f.attempts;
    successes = f.successes;
    failures = f.failures;
    streams = f.streams;
    coherent = λ c. inr refl;
  },
  record { child = refl; state = refl },
)

wait_for_exit_bounded-Ends :
    (u : LeanWorker) (operation : String) (timeout : ℕ) (t : WaitTrace) (w : LeanWorker)
    → Frame u w
    → Ends u (wait_for_exit_bounded operation timeout t w)
unfolding wait_for_exit_bounded
wait_for_exit_bounded-Ends u operation timeout (exits s text) w f =
    given_child-Ends u w.child _ w f
      (finalized-Ends u s text _ (restate (Worker.reaping w.generation) f))
wait_for_exit_bounded-Ends u operation timeout (wait_fails e) w f =
    given_child-Ends u w.child _ w f (restate _ f, tt)
wait_for_exit_bounded-Ends u operation timeout (pending elapsed rest) w f =
    given_child-Ends u w.child _ w f (
      if_rule (Ends u) (leb timeout elapsed) (restate _ f, tt)
        (wait_for_exit_bounded-Ends u operation timeout rest _ (restate _ f)))

kill_given-Keeps :
    (u : LeanWorker) (c : Option ℕ) (error : Option IoError) (w : LeanWorker)
    → Frame u w
    → Keeps u (kill_given c error w)
unfolding kill_given
kill_given-Keeps u none none w f = f
kill_given-Keeps u none (some e) w f = f
kill_given-Keeps u (some pid) none w f = f
kill_given-Keeps u (some pid) (some e) w f = f

kill_and_wait-Ends :
    (u : LeanWorker) (env : KillEnv) (w : LeanWorker) → Frame u w → Ends u (kill_and_wait env w)
unfolding kill_and_wait
kill_and_wait-Ends u env w f =
    then_call-Ends u _ (kill_child env.error w) (kill_given-Keeps u w.child env.error w f)
      (λ a w' g. wait_for_exit_bounded-Ends u "kill_wait" kill_wait_timeout env.after w' g)

kill_and_report-Ends :
    (u : LeanWorker) (outcome : LeanWorkerShutdownOutcome) (env : KillEnv) (w : LeanWorker)
    → Frame u w
    → Ends u (kill_and_report outcome env w)
unfolding kill_and_report
kill_and_report-Ends u outcome env w f =
    report-Ends u outcome (kill_and_wait env _) (kill_and_wait-Ends u env _ (restate _ f))

end_grace-Ends :
    (u : LeanWorker) (env : KillEnv) (r : Result LeanWorkerExit × LeanWorker)
    → Ends u r
    → Ends u (end_grace env r)
unfolding end_grace report
end_grace-Ends u env (ok exit, w) h = h
end_grace-Ends u env (err (wait_timeout operation t), w) h =
    kill_and_report-Ends u LeanWorkerShutdownOutcome.graceful_timed_out_killed env w h.0
end_grace-Ends u env (err _, w) h = h

on_received-Ends :
    (u : LeanWorker) (env : KillEnv) (r : Received) (again : Method LeanWorkerShutdownReport)
    (w : LeanWorker)
    → Frame u w
    → ((v : LeanWorker) → Frame u v → Ends u (again v))
    → Ends u (on_received env r again w)
unfolding on_received
on_received-Ends u env (terminating elapsed after) again w f ih = end_grace-Ends u env _ (
    wait_for_exit_bounded-Ends u "shutdown" (w.config.shutdown_timeout - elapsed) after _
      (reopen true f))
on_received-Ends u env (end_of_file elapsed after) again w f ih =
    end_grace-Ends u env _
      (wait_for_exit_bounded-Ends u "shutdown" (w.config.shutdown_timeout - elapsed) after w f)
on_received-Ends u env other_response again w f ih =
    kill_and_report-Ends u LeanWorkerShutdownOutcome.graceful_protocol_failed_killed env _
      (reopen true f)
on_received-Ends u env read_error again w f ih =
    kill_and_report-Ends u LeanWorkerShutdownOutcome.graceful_protocol_failed_killed env w f
on_received-Ends u env disconnected again w f ih =
    kill_and_report-Ends u LeanWorkerShutdownOutcome.graceful_protocol_failed_killed env w f
on_received-Ends u env event again w f ih = ih w f
on_received-Ends u env timed_out again w f ih = ih w f

overdue-Ends :
    (u : LeanWorker) (env : KillEnv) (w : LeanWorker) → Frame u w → Ends u (overdue env w)
unfolding overdue
overdue-Ends u env w f =
    report-Ends u LeanWorkerShutdownOutcome.graceful_timed_out_killed _
      (kill_and_wait-Ends u env w f)

grace_loop-Ends :
    (u : LeanWorker) (env : KillEnv) (t : GraceTrace) (w : LeanWorker)
    → Frame u w
    → Ends u (grace_loop env t w)
unfolding grace_loop
grace_loop-Ends u env (exits s text) w f =
    report-Ends u LeanWorkerShutdownOutcome.graceful (finalized s text w)
      (finalized-Ends u s text w f)
grace_loop-Ends u env (wait_fails e) w f = (f, tt)
grace_loop-Ends u env (round elapsed r rest) w f =
    if_rule (Ends u) (leb w.config.shutdown_timeout elapsed) (overdue-Ends u env w f)
      (on_received-Ends u env r (grace_loop env rest) w f (grace_loop-Ends u env rest))

after_terminate-Ends :
    (u : LeanWorker) (env : ShutdownEnv) (r : Result (Unit {0}) × LeanWorker)
    → Keeps u r
    → Ends u (after_terminate env r)
unfolding after_terminate wait_for_graceful_shutdown
after_terminate-Ends u env (ok _, w) f =
    if_rule (Ends u) w.stdout (grace_loop-Ends u env.killing env.grace _ (reopen false f)) (f, tt)
after_terminate-Ends u env (err (protocol m), w) f =
    kill_and_report-Ends u LeanWorkerShutdownOutcome.graceful_protocol_failed_killed env.killing w f
after_terminate-Ends u env (err (worker c m), w) f =
    kill_and_report-Ends u LeanWorkerShutdownOutcome.graceful_protocol_failed_killed env.killing w f
after_terminate-Ends u env (err _, w) f = (f, tt)

write_request-Keeps :
    (u : LeanWorker) (failure : Option String) (w : LeanWorker)
    → Frame u w
    → Keeps u (write_request failure w)
unfolding write_request
write_request-Keeps u none w f = if_rule (Keeps {A = Unit {0}} u) w.stdin f f
write_request-Keeps u (some m) w f = if_rule (Keeps {A = Unit {0}} u) w.stdin f f

stop_running-Ends :
    (intent : ShutdownIntent) (env : ShutdownEnv) (w : LeanWorker)
    → Ends w (stop_running intent env w)
unfolding stop_running finish_in_flight
stop_running-Ends graceful env w =
    after_terminate-Ends w env _
      (write_request-Keeps w env.write _ (restate (Worker.stopping w.generation) (Frame-refl w)))
stop_running-Ends kill_only env w =
    kill_and_report-Ends w LeanWorkerShutdownOutcome.kill_only env.killing _
      (restate (Worker.killing w.generation) (Frame-refl w))

stop_given-Ends :
    (intent : ShutdownIntent) (env : ShutdownEnv) (w : LeanWorker) (x : Option LeanWorkerExit)
    (c : Option ℕ) (poll : Poll)
    → w.last_exit ≡ x
    → w.child ≡ c
    → IsCoherent w
    → Ends w (then_call (stop_by_status intent env) (status_given x c poll w))
unfolding stop_by_status status_given report
stop_given-Ends intent env w (some exit) c poll p q h =
    (restate _ (Frame-refl w), record { child = ground arith; state = refl })
stop_given-Ends intent env w none none poll p q h =
    (restate _ (Frame-refl w), record { child = q; state = refl })
stop_given-Ends intent env w none (some pid) Poll.running p q h = stop_running-Ends intent env w
stop_given-Ends intent env w none (some pid) (Poll.wait_fails e) p q h = (Frame-refl w, tt)
stop_given-Ends intent env w none (some pid) (Poll.exits s text) p q h =
    (finalized-Ends w s text w (Frame-refl w))

-- However a shutdown goes, the policy, the window, the generation and the ids stay as they were; and
-- when it returns a report, the supervisor holds no child and is in the state `exited`.
pub shutdown_child-Ends :
    (intent : ShutdownIntent) (env : ShutdownEnv) (w : LeanWorker)
    → IsCoherent w
    → Ends w (shutdown_child intent env w)
unfolding shutdown_child status
shutdown_child-Ends intent env w h =
    stop_given-Ends intent env w w.last_exit w.child env.poll refl refl h
