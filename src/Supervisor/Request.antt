-- ===== src/Supervisor/Request.antt =====
-- crates/lean-rs-worker-parent/src/supervisor.rs: the event loop that waits for the answer to one
-- request. A trace gives what each round observes, and ends when the reader hangs up; a loop that
-- returns earlier reads no further. Beside the worker, the loop keeps the waits of the reader and what
-- the sinks have taken, in order.
pub mod Kept
pub mod Exits
pub mod Reads
pub mod Delivers
pub mod Handed
pub mod InOrder
pub mod Overdue
mod Tests
use lean_rs.Common.{
  ℕ, ◌+◌, ◌-◌, min, String, Bool, true, false, ◌&&◌, not, Option, none, some, List, [], ◌∷◌, ◌++◌,
  leb, ltb, ◌==◌, sat_add, sat_inc, length, if◌then◌else◌,
}
use lean_rs.Common.Options
use lean_rs.Protocol.Message.{
  Message, response, progress_tick, data_row, diagnostic, Response, error, DataRow, Diagnostic,
  ProgressTick, LeanWorkerImportStats,
}
use lean_rs.Protocol.Frame.{ProtocolError}
use lean_rs.Supervisor.Types.{
  Piece, lit, num, message_debug, response_debug, protocol_error_display, LeanWorkerRestartReason,
  rss_hard_limit, request_timeout, LeanWorkerError, protocol, worker, timeout,
  rss_hard_limit_exceeded, Result, ok, err,
}
use lean_rs.Supervisor.Stats.{worker_resource_facts}
use lean_rs.Supervisor.Worker.{
  LeanWorker, Method, InFlightRequest, current_request_id, dead_error, begin_in_flight,
  mark_current_request_streaming, finish_in_flight,
}
use lean_rs.Supervisor.Spawn.{Reaped}
use lean_rs.Supervisor.Restart.{RestartEnv, restart_with_reason}
use lean_rs.Supervisor.Reader.{
  RequestReaderEvent, message, terminal, read_error, event_generation, event_backpressure_waits,
  event_request_id,
}
use lean_rs.Supervisor.Sinks.{
  Unwind, Report, LeanWorkerDataSinkTarget, Reported, taken, failed, report_parent_progress,
  report_parent_data_row, report_parent_diagnostic,
}
use lean_rs.Supervisor.Stream.{
  fail_stream, terminalize_request_response, terminalize_request_failure, record_exit_error,
  hard_rss_limit_exceeded,
}

-- What `recv_timeout`, or `recv`, answers. A blocking `recv` that has nothing yet waits on.
pub data Received : Type 0 where
  event : RequestReaderEvent → Received
  timed_out disconnected : Received

-- One round: the RSS sample, the clock at the deadline's test, what is received, the time since the
-- request began when the round ends, the sink's answer, the token's answer after the report, the
-- replacement of the child, if there is one, and the wait for a child that closed its pipe.
pub record Round : Type 0 where
  pub rss : Option ℕ
  pub now : ℕ
  pub elapsed : ℕ
  pub sink : Unwind
  pub cancelled : Bool
  pub restart : RestartEnv
  pub exit : Reaped

pub data Trace : Type 0 where
  round : Round → Received → Trace → Trace
  hangs_up : Round → Trace

-- The arguments of one read: the operation, which sinks there are, and the clock.
pub record ReadEnv : Type 0 where
  pub operation : String
  pub progress : Bool
  pub sink_target : Option LeanWorkerDataSinkTarget
  pub diagnostics : Bool
  pub started : ℕ
  pub instant_max : ℕ
  pub trace : Trace

pub record ReadState : Type 0 where
  pub worker : LeanWorker
  pub waits : ℕ
  pub reports : List Report

abbrev pub Outcome : Type 0
Outcome = Result Response × ReadState

-- `Instant::checked_add`, on a clock with a last instant.
unfoldable pub checked_add : ℕ → ℕ → ℕ → Option ℕ
checked_add last a b = if leb (a + b) last then some (a + b) else none

-- `deadline.checked_duration_since(now)`.
unfoldable pub checked_duration_since : ℕ → Option ℕ → Option ℕ
checked_duration_since now none = none
checked_duration_since now (some deadline) =
    if leb now deadline then some (deadline - now) else none

abbrev pub with_worker : LeanWorker → ReadState → ReadState
with_worker w s = record s { worker = w }

unfoldable pub stale_worker_output_error : String → ℕ → ℕ → LeanWorkerError
stale_worker_output_error operation expected actual = protocol (
    lit "worker sent stale "
    ∷ lit operation
    ∷ lit " frame from generation "
    ∷ num actual
    ∷ lit ", current generation is "
    ∷ num expected
    ∷ [])

unfoldable pub id_text : Option ℕ → Piece
id_text none = lit "none"
id_text (some n) = num n

unfoldable pub stale_worker_request_output_error : String → Option ℕ → ℕ → LeanWorkerError
unfolding id_text
stale_worker_request_output_error operation expected actual = protocol (
    lit "worker sent stale "
    ∷ lit operation
    ∷ lit " frame from request "
    ∷ num actual
    ∷ lit ", current request is "
    ∷ id_text expected
    ∷ [])

unfoldable pub unexpected_response : String → Response → LeanWorkerError
unexpected_response operation r =
    protocol
      (lit "worker sent unexpected " ∷ lit operation ∷ lit " response: " ∷ response_debug r ∷ [])

unfoldable pub unexpected_message : String → Message → LeanWorkerError
unexpected_message operation m =
    protocol
      (lit "worker sent unexpected " ∷ lit operation ∷ lit " message: " ∷ message_debug m ∷ [])

module _ (env : ReadEnv) where
  abbrev pub streaming : Bool
  streaming = Options.is_some env.sink_target

  -- The request is over, with nothing counted for a stream.
  unfoldable pub give_up : LeanWorkerError → ReadState → Outcome
  unfolding finish_in_flight
  give_up e s = (err e, with_worker (finish_in_flight s.worker) s)

  unfoldable pub fail_request : LeanWorkerError → Round → ReadState → Outcome
  unfolding terminalize_request_failure
  fail_request e r s =
      (err e, with_worker (terminalize_request_failure streaming r.elapsed s.waits s.worker) s)

  unfoldable pub after_restart :
      (LeanWorker → LeanWorkerError) → ReadState → Result (Unit {0}) × LeanWorker → Outcome
  unfolding finish_in_flight
  after_restart error_of s (err e, w) = (err e, with_worker (finish_in_flight w) s)
  after_restart error_of s (ok _, w) =
      (err (error_of (finish_in_flight w)), with_worker (finish_in_flight w) s)

  -- The child is replaced, and the request fails.
  unfoldable pub replace_and_fail :
      LeanWorkerRestartReason → (LeanWorker → LeanWorkerError) → Round → ReadState → Outcome
  unfolding after_restart fail_stream
  replace_and_fail reason error_of r s =
      after_restart error_of s
        (restart_with_reason reason r.restart (fail_stream streaming r.elapsed s.waits s.worker))

  unfoldable pub hard_limit_error :
      ℕ → ℕ → Option LeanWorkerImportStats → LeanWorker → LeanWorkerError
  unfolding worker_resource_facts
  hard_limit_error current limit last w = rss_hard_limit_exceeded env.operation current limit last (
      worker_resource_facts "worker_rss_hard_limit" true (some env.operation) w.stats (some current)
        (some limit) none)

  unfoldable pub over_hard_limit : ℕ → ℕ → Round → ReadState → Outcome
  unfolding replace_and_fail hard_limit_error
  over_hard_limit current limit r s =
      let last = s.worker.stats.last_import_stats in
      replace_and_fail (rss_hard_limit env.operation current limit last)
        (hard_limit_error current limit last) r s

  unfoldable pub timeout_error : ℕ → LeanWorker → LeanWorkerError
  unfolding worker_resource_facts
  timeout_error duration w = timeout env.operation duration (
      worker_resource_facts "worker_timeout" true (some env.operation) w.stats w.stats.last_rss_kib
        none (some duration))

  unfoldable pub time_out : Round → ReadState → Outcome
  unfolding replace_and_fail timeout_error
  time_out r s =
      let duration = s.worker.config.request_timeout in
      replace_and_fail (request_timeout env.operation duration) (timeout_error duration) r s

  unfoldable pub cancelled_error : LeanWorker → LeanWorkerError
  unfolding worker_resource_facts
  cancelled_error w = LeanWorkerError.cancelled env.operation (
      worker_resource_facts "worker_cancelled" true (some env.operation) w.stats
        w.stats.last_rss_kib none none)

  unfoldable pub cancel : Round → ReadState → Outcome
  unfolding replace_and_fail cancelled_error
  cancel r s =
      replace_and_fail (LeanWorkerRestartReason.cancelled env.operation) cancelled_error r s

  unfoldable pub reader_gone : ReadState → Outcome
  unfolding give_up
  reader_gone s =
      give_up (protocol (lit "worker response reader exited without a terminal response" ∷ [])) s

  unfoldable pub note_reports : List Report → ReadState → ReadState
  note_reports rs s = record s { reports = s.reports ++ rs }

  unfoldable pub cancel_or : (ReadState → Outcome) → Round → ReadState → Outcome
  unfolding cancel
  cancel_or again r s = if r.cancelled then cancel r s else again s

  unfoldable pub on_progress : (ReadState → Outcome) → Round → ReadState → Reported → Outcome
  unfolding fail_request cancel_or note_reports
  on_progress again r s (failed e) = fail_request e r s
  on_progress again r s (taken rs) = cancel_or again r (note_reports rs s)

  unfoldable pub count_row : DataRow → ReadState → ReadState
  count_row row s =
      with_worker
        (record s.worker {
          stats = record s.worker.stats {
            data_rows_delivered = sat_inc s.worker.stats.data_rows_delivered;
            data_row_payload_bytes =
                sat_add s.worker.stats.data_row_payload_bytes (length row.payload);
          };
        })
        s

  unfoldable pub on_row : (ReadState → Outcome) → Round → ReadState → DataRow → Reported → Outcome
  unfolding fail_request cancel_or count_row note_reports
  on_row again r s row (failed e) = fail_request e r s
  on_row again r s row (taken rs) = cancel_or again r (count_row row (note_reports rs s))

  unfoldable pub on_diagnostic : (ReadState → Outcome) → Round → ReadState → Reported → Outcome
  unfolding fail_request note_reports
  on_diagnostic again r s (failed e) = fail_request e r s
  on_diagnostic again r s (taken rs) = again (note_reports rs s)

  abbrev pub mark_streaming_state : ReadState → ReadState
  mark_streaming_state s = with_worker (mark_current_request_streaming s.worker) s

  unfoldable pub on_message : (ReadState → Outcome) → Round → Message → ReadState → Outcome
  unfolding on_progress on_row on_diagnostic fail_request
  on_message again r (progress_tick tick) s =
      on_progress again r (mark_streaming_state s)
        (report_parent_progress env.progress tick r.elapsed r.sink)
  on_message again r (data_row row) s =
      on_row again r (mark_streaming_state s) row
        (report_parent_data_row env.sink_target row r.sink)
  on_message again r (diagnostic d) s =
      on_diagnostic again r (mark_streaming_state s)
        (report_parent_diagnostic env.diagnostics d r.sink)
  on_message again r (response x) s = fail_request (unexpected_response env.operation x) r s
  on_message again r m s = fail_request (unexpected_message env.operation m) r s

  -- The pipe is back.
  abbrev pub hold_stdout : ReadState → ReadState
  hold_stdout s = with_worker (record s.worker { stdout = true }) s

  unfoldable pub on_terminal : Round → Message → ReadState → Outcome
  unfolding fail_request terminalize_request_response
  on_terminal r (response (error code text)) s = fail_request (worker code text) r s
  on_terminal r (response x) s =
      (ok x, with_worker (terminalize_request_response x streaming r.elapsed s.waits s.worker) s)
  on_terminal r m s = fail_request (unexpected_message env.operation m) r s

  unfoldable pub exit_failed : ReadState → LeanWorkerError × LeanWorker → Outcome
  exit_failed s (e, w) = (err e, with_worker w s)

  unfoldable pub on_read_error : Round → ProtocolError → Bool → ReadState → Outcome
  unfolding fail_request terminalize_request_failure exit_failed
  on_read_error r e true s =
      exit_failed s (
        record_exit_error r.exit (terminalize_request_failure streaming r.elapsed s.waits s.worker))
  on_read_error r e false s = fail_request (protocol (protocol_error_display e ∷ [])) r s

  unfoldable pub on_current :
      (ReadState → Outcome) → Round → RequestReaderEvent → ReadState → Outcome
  unfolding on_message on_terminal on_read_error
  on_current again r (message g i m b) s = on_message again r m s
  on_current again r (terminal g i m b) s = on_terminal r m (hold_stdout s)
  on_current again r (read_error g i e eof b) s = on_read_error r e eof s

  unfoldable pub count_waits : ℕ → ReadState → ReadState
  count_waits n s = record s {
    waits = sat_add s.waits n;
    worker = record s.worker {
      stats = record s.worker.stats {
        backpressure_waits = sat_add s.worker.stats.backpressure_waits n;
      };
    };
  }

  unfoldable pub id_matches : Option ℕ → Option ℕ → Bool
  id_matches none current = false
  id_matches (some n) none = false
  id_matches (some n) (some m) = m == n

  -- An event of another request; one without a request id passes.
  unfoldable pub check_request :
      (ReadState → Outcome) → Round → RequestReaderEvent → Option ℕ → ReadState → Outcome
  unfolding on_current count_waits give_up id_matches
  check_request again r e none s = on_current again r e (count_waits (event_backpressure_waits e) s)
  check_request again r e (some actual) s =
      if id_matches (some actual) (current_request_id s.worker.state)
      then on_current again r e (count_waits (event_backpressure_waits e) s)
      else give_up
          (stale_worker_request_output_error env.operation (current_request_id s.worker.state)
            actual)
          s

  unfoldable pub on_event : (ReadState → Outcome) → Round → RequestReaderEvent → ReadState → Outcome
  unfolding check_request give_up
  on_event again r e s =
      if event_generation e == s.worker.generation
      then check_request again r e (event_request_id e) s
      else give_up
          (stale_worker_output_error env.operation s.worker.generation (event_generation e)) s

  -- The timeout of one receive, under the hard limit's watch.
  unfoldable pub wait_for : LeanWorker → ℕ → ℕ
  wait_for w remaining =
      if Options.is_some w.config.rss_hard_limit_kib
      then min remaining w.config.rss_sample_interval
      else remaining

  unfoldable pub on_recv_timeout :
      (Bool → ReadState → Outcome) → Round → ℕ → Received → ReadState → Outcome
  unfolding wait_for on_event time_out reader_gone
  on_recv_timeout again r remaining (event e) s = on_event (again false) r e s
  on_recv_timeout again r remaining disconnected s = reader_gone s
  on_recv_timeout again r remaining timed_out s =
      if Options.is_some s.worker.config.rss_hard_limit_kib
        && ltb (wait_for s.worker remaining) remaining
      then again false s
      else time_out r s

  unfoldable pub on_recv : (Bool → ReadState → Outcome) → Round → Received → ReadState → Outcome
  unfolding on_event reader_gone
  on_recv again r (event e) s = on_event (again false) r e s
  on_recv again r timed_out s = again true s
  on_recv again r disconnected s = reader_gone s

  unfoldable pub by_remaining :
      (Bool → ReadState → Outcome) → Round → Received → Option ℕ → ReadState → Outcome
  unfolding on_recv_timeout on_recv time_out
  by_remaining again r received none s = on_recv again r received s
  by_remaining again r received (some remaining) s =
      if remaining == 0 then time_out r s else on_recv_timeout again r remaining received s

  unfoldable pub by_limit :
      (Bool → ReadState → Outcome)
      → Round
      → Received
      → ReadState
      → Option (ℕ × ℕ) × LeanWorker
      → Outcome
  unfolding over_hard_limit by_remaining checked_duration_since checked_add
  by_limit again r received s (some (current, limit), w) =
      over_hard_limit current limit r (with_worker w s)
  by_limit again r received s (none, w) =
      by_remaining again r received
        (checked_duration_since r.now
          (checked_add env.instant_max env.started w.config.request_timeout))
        (with_worker w s)

  -- One round: blocked in `recv`, or from the top of the loop.
  unfoldable pub read_round :
      (Bool → ReadState → Outcome) → Round → Received → Bool → ReadState → Outcome
  unfolding on_recv by_limit
  read_round again r received true s = on_recv again r received s
  read_round again r received false s =
      by_limit again r received s (hard_rss_limit_exceeded r.rss s.worker)

  unfoldable pub no_more : Bool → ReadState → Outcome
  unfolding reader_gone
  no_more blocked s = reader_gone s

  unfoldable pub read_trace : Trace → Bool → ReadState → Outcome
  unfolding read_round no_more
  read_trace (hangs_up r) blocked s = read_round no_more r disconnected blocked s
  read_trace (round r received rest) blocked s = read_round (read_trace rest) r received blocked s

  -- The pipe goes to the reader, and the request is in flight.
  unfoldable pub begin_read : LeanWorker → ReadState
  unfolding begin_in_flight
  begin_read w = record {
    worker = (begin_in_flight env.operation (record w { stdout = false })).1;
    waits = 0;
    reports = [];
  }

  -- `LeanWorker::read_response_with_events`, with what the sinks have taken.
  unfoldable pub read_response_with_events : LeanWorker → Outcome
  unfolding read_trace begin_read
  read_response_with_events w =
      if w.stdout
      then read_trace env.trace false (begin_read w)
      else (err (dead_error w), record { worker = w; waits = 0; reports = [] })

  -- The same as a method of the worker.
  unfoldable pub read_response : Method Response
  unfolding read_response_with_events
  read_response w = let (r, s) = read_response_with_events w in (r, s.worker)
