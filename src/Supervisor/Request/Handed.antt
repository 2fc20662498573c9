-- ===== src/Supervisor/Request/Handed.antt =====
-- The rows at each way out of a wait for an answer, and at each report: the event loop of
-- crates/lean-rs-worker-parent/src/supervisor.rs.
use lean_rs.Common.{
  ℕ, String, ◌≡◌, refl, ◌∙◌, sym, inl, inr, Bool, true, false, Option, none, some, List, [], ◌∷◌,
  Bool-cases,
}
use mathlib.Core.List.{append-nil}
use lean_rs.Protocol.Message.{Message, response, Response, error, DataRow, ProgressTick, Diagnostic}
use lean_rs.Protocol.Frame.{ProtocolError}
use lean_rs.Supervisor.Types.{LeanWorkerRestartReason, LeanWorkerError, Result, ok, err}
use lean_rs.Supervisor.Frame.{IsCoherent}
use lean_rs.Supervisor.Worker.{LeanWorker, dead_error, finish_in_flight}
use lean_rs.Supervisor.Shutdown.{given_child, with_child, finalized, reaping_worker}
use lean_rs.Supervisor.Spawn.{Reaped, reaped, wait_fails}
use lean_rs.Supervisor.Restart.Outcome.{Restarts, restart_with_reason-Restarts}
use lean_rs.Supervisor.Sinks.{
  Unwind, returns, panics, row, LeanWorkerDataSinkTarget, value, raw, Reported, taken, failed,
  report_parent_progress, report_parent_data_row, report_value_row, report_parent_diagnostic,
}
use lean_rs.Supervisor.Stream.{
  fail_stream, terminalize_request_response, wait_child, error_of, record_exit_error, completes,
  terminalize_request_failure, wait_for_exit,
}
use lean_rs.Supervisor.Request.{
  Round, ReadEnv, ReadState, streaming, give_up, fail_request, after_restart, replace_and_fail,
  on_terminal, exit_failed, on_read_error,
}
use lean_rs.Supervisor.Request.Delivers.{
  rows_taken, Delivers, SameRows, same_streams, failed-Delivers,
}

fail_stream-SameRows :
    (streams : Bool) (elapsed waits : ℕ) (w : LeanWorker)
    → SameRows w.stats (fail_stream streams elapsed waits w).stats
unfolding fail_stream
fail_stream-SameRows false elapsed waits w = (refl, refl)
fail_stream-SameRows true elapsed waits w = (refl, refl)

fail_stream-IsCoherent :
    (streams : Bool) (elapsed waits : ℕ) (w : LeanWorker)
    → IsCoherent w
    → IsCoherent (fail_stream streams elapsed waits w)
unfolding fail_stream
fail_stream-IsCoherent false elapsed waits w c = c
fail_stream-IsCoherent true elapsed waits w c = c

module _ (env : ReadEnv) (sent : List DataRow) where
  pub fail_request-Delivers :
      (e : LeanWorkerError) (r : Round) (s : ReadState) → Delivers s sent (fail_request env e r s)
  unfolding fail_request finish_in_flight
  fail_request-Delivers e r s =
      failed-Delivers s sent e _ s.waits
        (fail_stream-SameRows (streaming env) r.elapsed s.waits s.worker)

  pub give_up-Delivers : (e : LeanWorkerError) (s : ReadState) → Delivers s sent (give_up env e s)
  unfolding give_up finish_in_flight
  give_up-Delivers e s = failed-Delivers s sent e _ s.waits (refl, refl)

  after_restart-Delivers :
      (reason : LeanWorkerRestartReason) (r : Round) (error_of : LeanWorker → LeanWorkerError)
      (s : ReadState) (v : LeanWorker) (x : Result (Unit {0}) × LeanWorker)
      → SameRows s.worker.stats v.stats
      → Restarts reason r.restart v x
      → Delivers s sent (after_restart env error_of s x)
  unfolding after_restart finish_in_flight
  after_restart-Delivers reason r error_of s v (ok _, w) (n, b) h =
      let (m, c) = same_streams v.stats w.stats h.streams in
      failed-Delivers s sent _ _ s.waits (m ∙ n, c ∙ b)
  after_restart-Delivers reason r error_of s v (err e, w) (n, b) h =
      let (m, c) = same_streams v.stats w.stats h.streams in
      failed-Delivers s sent e _ s.waits (m ∙ n, c ∙ b)

  pub replace_and_fail-Delivers :
      (reason : LeanWorkerRestartReason) (error_of : LeanWorker → LeanWorkerError) (r : Round)
      (s : ReadState)
      → IsCoherent s.worker
      → Delivers s sent (replace_and_fail env reason error_of r s)
  unfolding replace_and_fail
  replace_and_fail-Delivers reason error_of r s c =
      after_restart-Delivers reason r error_of s _ _
        (fail_stream-SameRows (streaming env) r.elapsed s.waits s.worker)
        (restart_with_reason-Restarts reason r.restart _
          (fail_stream-IsCoherent (streaming env) r.elapsed s.waits s.worker c))

  exited-Delivers :
      (child : Option ℕ) (x : Reaped) (s : ReadState) (v : LeanWorker)
      → SameRows s.worker.stats v.stats
      → Delivers s sent (exit_failed env s (error_of (given_child child (wait_child x) v)))
  unfolding exit_failed given_child wait_child error_of dead_error finalized reaping_worker
  exited-Delivers none x s v h = failed-Delivers s sent _ _ s.waits h
  exited-Delivers (some pid) (reaped status text) s v h = failed-Delivers s sent _ _ s.waits h
  exited-Delivers (some pid) (wait_fails e) s v h = failed-Delivers s sent _ _ s.waits h

  pub on_read_error-Delivers :
      (r : Round) (e : ProtocolError) (eof : Bool) (s : ReadState)
      → Delivers s sent (on_read_error env r e eof s)
  unfolding on_read_error record_exit_error wait_for_exit with_child terminalize_request_failure
      finish_in_flight
  on_read_error-Delivers r e true s =
      exited-Delivers _ r.exit s _ (fail_stream-SameRows (streaming env) r.elapsed s.waits s.worker)
  on_read_error-Delivers r e false s = fail_request-Delivers _ r s

response-SameRows :
    (x : Response) (streams : Bool) (elapsed waits : ℕ) (w : LeanWorker)
    → SameRows w.stats (terminalize_request_response x streams elapsed waits w).stats
unfolding terminalize_request_response
response-SameRows x false elapsed waits w = (refl, refl)
response-SameRows x true elapsed waits w = elim (Bool-cases (completes x)) [
  | inl e ↦ rw e (refl, refl)
  | inr e ↦ rw e (refl, refl)
]

pub on_terminal-Delivers :
    (env : ReadEnv) (r : Round) (m : Message) (s : ReadState)
    → Delivers s [] (on_terminal env r m s)
unfolding on_terminal
on_terminal-Delivers env r (response (error code text)) s = fail_request-Delivers env [] _ r s
on_terminal-Delivers env r (response x) s = record {
  rows = [];
  reported = sym (append-nil (rows_taken s.reports));
  counted = (response-SameRows x (streaming env) r.elapsed s.waits s.worker).0;
  bytes = (response-SameRows x (streaming env) r.elapsed s.waits s.worker).1;
  covers = refl;
}
on_terminal-Delivers env r _ s = fail_request-Delivers env [] _ r s

-- A row that is reported is the row that was received.
pub data TakesRow (r : DataRow) : Reported → Type 0 where
  takes : TakesRow r (taken (row r ∷ []))
  refuses : (e : LeanWorkerError) → TakesRow r (failed e)

pub report_parent_data_row-TakesRow :
    (target : Option LeanWorkerDataSinkTarget) (r : DataRow) (u : Unwind)
    → TakesRow r (report_parent_data_row target r u)
unfolding report_parent_data_row
report_parent_data_row-TakesRow none r u = refuses _
report_parent_data_row-TakesRow (some raw) r returns = takes
report_parent_data_row-TakesRow (some raw) r (panics p) = refuses _
report_parent_data_row-TakesRow (some (value decode)) r u = by_decode (decode r.payload) u
  where
    by_decode : (o : Option String) (v : Unwind) → TakesRow r (report_value_row o r v)
    by_decode none returns = takes
    by_decode none (panics p) = refuses _
    by_decode (some e) v = refuses _

-- A report of progress or of a diagnostic holds no row.
abbrev pub HoldsNoRow : Reported → Type 0
HoldsNoRow (taken rs) = rows_taken rs ≡ []
HoldsNoRow (failed e) = Unit {0}

pub report_parent_progress-HoldsNoRow :
    (sink : Bool) (t : ProgressTick) (e : ℕ) (u : Unwind)
    → HoldsNoRow (report_parent_progress sink t e u)
unfolding report_parent_progress
report_parent_progress-HoldsNoRow false t e u = refl
report_parent_progress-HoldsNoRow true t e returns = refl
report_parent_progress-HoldsNoRow true t e (panics p) = tt

pub report_parent_diagnostic-HoldsNoRow :
    (sink : Bool) (d : Diagnostic) (u : Unwind) → HoldsNoRow (report_parent_diagnostic sink d u)
unfolding report_parent_diagnostic
report_parent_diagnostic-HoldsNoRow false d u = refl
report_parent_diagnostic-HoldsNoRow true d returns = refl
report_parent_diagnostic-HoldsNoRow true d (panics p) = tt
