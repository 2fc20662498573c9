-- ===== src/Supervisor/Request/Tests.antt =====
-- The theorems on the wait for an answer, at a stream of one row and at a reader of two frames.
use lean_rs.Common.{
  ℕ, Option, ◌==◌, if◌then◌else◌, ◌≡◌, ◌≤◌, ◌<◌, sat_add, refl, inl, true, false, none, some, List,
  [], ◌∷◌, arith,
}
use lean_rs.Protocol.Message.{stream_complete, DataRow, data_row, response}
use lean_rs.Supervisor.Types.{ok}
use lean_rs.Supervisor.Worker.{current_request_id, mark_current_request_streaming}
use lean_rs.Supervisor.Reader.{
  message, terminal, event_generation, event_request_id, ReaderEnv, sent, read_request_messages,
}
use lean_rs.Supervisor.Reader.Closed.{IsClosed, read_request_messages-IsClosed}
use lean_rs.Supervisor.Sinks.{raw, row, report_parent_data_row}
use lean_rs.Supervisor.Stream.{hard_rss_limit_exceeded}
use lean_rs.Supervisor.Request.{
  Round, round, hangs_up, event, timed_out, ReadEnv, ReadState, begin_read, read_trace, time_out,
  read_response_with_events, id_matches, checked_duration_since, checked_add, count_row,
}
use lean_rs.Supervisor.Request.Delivers.{Delivers}
use lean_rs.Supervisor.Request.InOrder.{read_response_with_events-Delivers}
use lean_rs.Supervisor.Request.Overdue.{silence, timed_out-Deadline}
use lean_rs.Supervisor.Samples.{busy_worker, early_round}
use lean_rs.Protocol.Message.{Message, progress_tick, terminating}
use lean_rs.Protocol.Frame.{Codec, Frame, new_frame}

abbrev one_row : DataRow
one_row = record { stream = "rows"; sequence = 0; payload = 1 ∷ 2 ∷ [] }

-- A stream of one row, and its summary.
abbrev streaming_row : ReadEnv
streaming_row = record {
  operation = "worker_run_data_stream";
  progress = false;
  sink_target = some raw;
  diagnostics = false;
  started = 20;
  instant_max = 100000;
  trace = round early_round (event (message 1 (some 4) (data_row one_row) 1)) (
      round early_round (event (terminal 1 (some 4) (response (stream_complete "done")) 0))
        (hangs_up early_round));
}

read_response_with_events-Delivers_example :
    Delivers
      (begin_read streaming_row (busy_worker []))
      (one_row ∷ [])
      (read_response_with_events streaming_row (busy_worker []))
read_response_with_events-Delivers_example =
    read_response_with_events-Delivers streaming_row (busy_worker []) refl (inl refl)

abbrev waiting : ReadState
waiting = record { worker = busy_worker []; waits = 0; reports = [] }

timed_out-Deadline_example :
    (25 ≤ 1020
      → read_trace streaming_row (round early_round timed_out (hangs_up early_round)) false waiting
        ≡ time_out streaming_row early_round waiting)
    × (1020 < 25
        → (rs : List Round)
        → read_trace streaming_row
            (round early_round timed_out (silence rs (hangs_up early_round)))
            false
            waiting
          ≡ read_trace streaming_row (hangs_up early_round) true waiting)
timed_out-Deadline_example =
    timed_out-Deadline streaming_row waiting refl (omega arith) early_round (hangs_up early_round)

-- The whole stream runs: its row is taken, its summary returned.
stream_test :
    ((read_response_with_events streaming_row (busy_worker [])).0 ≡ ok (stream_complete "done"))
    × ((read_response_with_events streaming_row (busy_worker [])).1.reports ≡ row one_row ∷ [])
unfolding read_response_with_events id_matches event_request_id event_generation
    hard_rss_limit_exceeded current_request_id checked_duration_since checked_add sat_add
    report_parent_data_row mark_current_request_streaming count_row
stream_test = (refl, refl)

-- A child that says a tick with the byte 1, and an answer with any other.
abbrev spoken : ℕ → Message
spoken n =
    if n == 1
    then progress_tick (record { phase = "load"; current = 1; total = none })
    else response terminating

abbrev tick_from_slice : List ℕ → Option Frame
tick_from_slice (n ∷ []) = some (new_frame (spoken n))
tick_from_slice _ = none

unspoken :
    (f : Frame) (bytes : List ℕ)
    → ◌≡◌ {A = Option (List ℕ)} none (some bytes)
    → tick_from_slice bytes ≡ some f
unspoken f bytes h = cc

abbrev tick_codec : Codec
tick_codec = record {
  to_vec = λ f. none;
  from_slice = tick_from_slice;
  roundtrip = λ f bytes. unspoken f bytes;
}

abbrev reader : ReaderEnv
reader = record {
  codec = tick_codec;
  max_frame_bytes = 16;
  generation = 1;
  request_id = some 4;
  sending = λ n. sent;
}

abbrev tick_then_answer : List ℕ
tick_then_answer = 0 ∷ 0 ∷ 0 ∷ 1 ∷ 1 ∷ 0 ∷ 0 ∷ 0 ∷ 1 ∷ 0 ∷ []

read_request_messages-IsClosed_example :
    IsClosed reader tick_then_answer (read_request_messages reader tick_then_answer)
read_request_messages-IsClosed_example =
    read_request_messages-IsClosed reader (λ n. tt) tick_then_answer
