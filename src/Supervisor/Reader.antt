-- ===== src/Supervisor/Reader.antt =====
-- crates/lean-rs-worker-parent/src/supervisor.rs: the thread that reads the frames of one request and
-- sends them to the supervisor through a bounded channel. What the channel answers to the n-th event
-- is an argument; the thread returns the events that the supervisor receives, in order.
pub mod Closed
use lean_rs.Common.{
  ℕ, zero, suc, ◌+◌, Bool, true, false, Option, none, some, List, [], ◌∷◌, length, sat_inc,
  if◌then◌else◌,
}
use lean_rs.Protocol.Message.{Message, response}
use lean_rs.Protocol.Frame.{
  Codec, Frame, ProtocolError, unexpected_eof, FrameResult, ok, err, read_frame,
}

-- A terminal event carries the pipe back.
pub data RequestReaderEvent : Type 0 where
  message : ℕ → Option ℕ → Message → ℕ → RequestReaderEvent
  terminal : ℕ → Option ℕ → Message → ℕ → RequestReaderEvent
  read_error : ℕ → Option ℕ → ProtocolError → Bool → ℕ → RequestReaderEvent

unfoldable pub event_generation : RequestReaderEvent → ℕ
event_generation (message g i m b) = g
event_generation (terminal g i m b) = g
event_generation (read_error g i e eof b) = g

unfoldable pub event_backpressure_waits : RequestReaderEvent → ℕ
event_backpressure_waits (message g i m b) = b
event_backpressure_waits (terminal g i m b) = b
event_backpressure_waits (read_error g i e eof b) = b

unfoldable pub event_request_id : RequestReaderEvent → Option ℕ
event_request_id (message g i m b) = i
event_request_id (terminal g i m b) = i
event_request_id (read_error g i e eof b) = i

unfoldable pub add_backpressure_wait : RequestReaderEvent → RequestReaderEvent
add_backpressure_wait (message g i m b) = message g i m (sat_inc b)
add_backpressure_wait (terminal g i m b) = terminal g i m (sat_inc b)
add_backpressure_wait (read_error g i e eof b) = read_error g i e eof (sat_inc b)

-- What `try_send`, and `send` after a full channel, answer.
pub data Sending : Type 0 where
  sent full_then_sent full_then_gone disconnected : Sending

-- `send_reader_event`: the event that arrives, if one does.
unfoldable pub send_reader_event : Sending → RequestReaderEvent → Option RequestReaderEvent
unfolding add_backpressure_wait
send_reader_event sent e = some e
send_reader_event full_then_sent e = some (add_backpressure_wait e)
send_reader_event full_then_gone e = none
send_reader_event disconnected e = none

unfoldable pub arriving : Option RequestReaderEvent → List RequestReaderEvent
arriving none = []
arriving (some e) = e ∷ []

-- Events are sent on as long as they arrive.
unfoldable pub keep_sending :
    Option RequestReaderEvent → List RequestReaderEvent → List RequestReaderEvent
keep_sending none rest = []
keep_sending (some e) rest = e ∷ rest

-- `ProtocolError::is_eof`.
unfoldable pub is_eof : ProtocolError → Bool
is_eof unexpected_eof = true
is_eof _ = false

unfoldable pub is_response : Message → Bool
is_response (response r) = true
is_response _ = false

-- The generation and the request that the thread reads for, its cap and its channel.
pub record ReaderEnv : Type 0 where
  pub codec : Codec
  pub max_frame_bytes : ℕ
  pub generation : ℕ
  pub request_id : Option ℕ
  pub sending : ℕ → Sending

-- One round of `read_request_messages`, given the events of the rounds behind it.
unfoldable pub read_round :
    ReaderEnv
    → ℕ
    → (List ℕ → List RequestReaderEvent)
    → FrameResult (Frame × List ℕ)
    → List RequestReaderEvent
unfolding send_reader_event arriving keep_sending is_eof is_response
read_round env n again (ok (f, rest)) =
    if is_response f.message
    then arriving
        (send_reader_event (env.sending n) (terminal env.generation env.request_id f.message 0))
    else keep_sending
        (send_reader_event (env.sending n) (message env.generation env.request_id f.message 0))
        (again rest)
read_round env n again (err e) =
    arriving
      (send_reader_event (env.sending n) (read_error env.generation env.request_id e (is_eof e) 0))

-- The loop on fuel: event number `n`, and the bytes that the child will have written.
unfoldable pub read_loop : ReaderEnv → ℕ → ℕ → List ℕ → List RequestReaderEvent
unfolding read_round
read_loop env zero n bytes = []
read_loop env (suc fuel) n bytes =
    read_round env n (read_loop env fuel (n + 1)) (read_frame env.codec env.max_frame_bytes bytes)

-- `read_request_messages`. Each round takes four bytes or ends the loop.
unfoldable pub read_request_messages : ReaderEnv → List ℕ → List RequestReaderEvent
unfolding read_loop
read_request_messages env bytes = read_loop env (suc (length bytes)) 0 bytes
