-- ===== src/Supervisor/Reader/Closed.antt =====
-- The end of the reader thread: `read_request_messages` of
-- crates/lean-rs-worker-parent/src/supervisor.rs.
use lean_rs.Common.{
  ℕ, zero, suc, ◌+◌, ◌<◌, ◌≡◌, refl, ap, inl, inr, true, false, List, [], ◌∷◌, length,
  length-append, arith, Bool-cases,
}
use lean_rs.Protocol.Frame.{Codec, Frame, FrameResult, ok, err, read_frame}
use lean_rs.Protocol.Frame.Accepted.{AcceptsFrame, read_frame-AcceptsFrame}
use lean_rs.Supervisor.Reader.{
  RequestReaderEvent, message, terminal, read_error, Sending, sent, full_then_sent, full_then_gone,
  disconnected, send_reader_event, arriving, keep_sending, is_eof, is_response, ReaderEnv,
  read_round, read_loop, read_request_messages,
}

-- What the thread reads when the child has `bytes` still to deliver.
abbrev pub next_frame : ReaderEnv → List ℕ → FrameResult (Frame × List ℕ)
next_frame env bytes = read_frame env.codec env.max_frame_bytes bytes

-- The event that ends a request: the response that the bytes hold next, or the error that reading
-- them gives.
abbrev pub IsLast : ReaderEnv → List ℕ → RequestReaderEvent → Type 0
IsLast env bytes (message g i m b) = ⊥
IsLast env bytes (terminal g i m b) =
    (g ≡ env.generation)
    × (i ≡ env.request_id)
    × (f : Frame) × (rest : List ℕ) × (next_frame env bytes ≡ ok (f, rest))
    × (f.message ≡ m)
    × (is_response m ≡ true)
IsLast env bytes (read_error g i e eof b) =
    (g ≡ env.generation) × (i ≡ env.request_id) × (next_frame env bytes ≡ err e) × (eof ≡ is_eof e)

-- An event on the way there: the message that the bytes hold next, which is no response; and the
-- bytes behind it.
abbrev pub IsMiddle : ReaderEnv → List ℕ → RequestReaderEvent → List ℕ → Type 0
IsMiddle env bytes (message g i m b) rest =
    (g ≡ env.generation)
    × (i ≡ env.request_id)
    × (f : Frame) × (next_frame env bytes ≡ ok (f, rest))
    × (f.message ≡ m)
    × (is_response m ≡ false)
IsMiddle env bytes (terminal g i m b) rest = ⊥
IsMiddle env bytes (read_error g i e eof b) rest = ⊥

-- The messages that the bytes hold, and then one event that ends the request.
pub data IsClosed (env : ReaderEnv) : List ℕ → List RequestReaderEvent → Type 0 where
  last :
      {bytes : List ℕ} {e : RequestReaderEvent} → IsLast env bytes e → IsClosed env bytes (e ∷ [])
  more :
      {bytes rest : List ℕ} {e : RequestReaderEvent} {es : List RequestReaderEvent}
      → IsMiddle env bytes e rest
      → IsClosed env rest es
      → IsClosed env bytes (e ∷ es)

-- The supervisor holds on to its end of the channel.
abbrev pub IsHeld : Sending → Type 0
IsHeld sent = Unit {0}
IsHeld full_then_sent = Unit {0}
IsHeld full_then_gone = ⊥
IsHeld disconnected = ⊥

read_frame_shrinks :
    (codec : Codec) (max : ℕ) (bytes : List ℕ) (f : Frame) (rest : List ℕ)
    → AcceptsFrame codec max bytes (ok (f, rest))
    → length rest < length bytes
read_frame_shrinks codec max [] f rest h = cc
read_frame_shrinks codec max (a ∷ []) f rest h = cc
read_frame_shrinks codec max (a ∷ b ∷ []) f rest h = cc
read_frame_shrinks codec max (a ∷ b ∷ c ∷ []) f rest h = cc
read_frame_shrinks codec max (a ∷ b ∷ c ∷ d ∷ tail) f rest h =
    omega (arith, ap length h.1.0, length-append h.0 rest)

arriving-IsClosed :
    (env : ReaderEnv) (bytes : List ℕ) (s : Sending) (e : RequestReaderEvent)
    → IsHeld s
    → IsLast env bytes e
    → IsClosed env bytes (arriving (send_reader_event s e))
unfolding arriving send_reader_event
arriving-IsClosed env bytes sent e h l = last l
arriving-IsClosed env bytes full_then_sent (message g i m b) h l = elim l [ ]
arriving-IsClosed env bytes full_then_sent (terminal g i m b) h l = last l
arriving-IsClosed env bytes full_then_sent (read_error g i e eof b) h l = last l
arriving-IsClosed env bytes full_then_gone e h l = elim h [ ]
arriving-IsClosed env bytes disconnected e h l = elim h [ ]

keep_sending-IsClosed :
    (env : ReaderEnv) (bytes rest : List ℕ) (s : Sending) (e : RequestReaderEvent)
    (es : List RequestReaderEvent)
    → IsHeld s
    → IsMiddle env bytes e rest
    → IsClosed env rest es
    → IsClosed env bytes (keep_sending (send_reader_event s e) es)
unfolding keep_sending send_reader_event
keep_sending-IsClosed env bytes rest sent e es h l c = more l c
keep_sending-IsClosed env bytes rest full_then_sent (message g i m b) es h l c = more l c
keep_sending-IsClosed env bytes rest full_then_sent (terminal g i m b) es h l c = elim l [ ]
keep_sending-IsClosed env bytes rest full_then_sent (read_error g i e eof b) es h l c = elim l [ ]
keep_sending-IsClosed env bytes rest full_then_gone e es h l c = elim h [ ]
keep_sending-IsClosed env bytes rest disconnected e es h l c = elim h [ ]

module _ (env : ReaderEnv) (held : (n : ℕ) → IsHeld (env.sending n)) where
  read_round-IsClosed :
      (n : ℕ) (bytes : List ℕ) (again : List ℕ → List RequestReaderEvent)
      (r : FrameResult (Frame × List ℕ))
      → next_frame env bytes ≡ r
      → AcceptsFrame env.codec env.max_frame_bytes bytes r
      → ((rest : List ℕ) → length rest < length bytes → IsClosed env rest (again rest))
      → IsClosed env bytes (read_round env n again r)
  unfolding read_round
  read_round-IsClosed n bytes again (err e) q h ih =
      arriving-IsClosed env bytes (env.sending n) _ (held n) (refl, refl, q, refl)
  read_round-IsClosed n bytes again (ok (f, rest)) q h ih =
      elim (Bool-cases (is_response f.message)) [
        | inl t ↦ rw t (
            arriving-IsClosed env bytes (env.sending n) _ (held n)
              (refl, refl, f, rest, q, refl, t))
        | inr t ↦ rw t (
            keep_sending-IsClosed env bytes rest (env.sending n) _ _ (held n)
              (refl, refl, f, q, refl, t)
              (ih rest (read_frame_shrinks env.codec env.max_frame_bytes bytes f rest h)))
      ]

  read_loop-IsClosed :
      (fuel n : ℕ) (bytes : List ℕ)
      → length bytes < fuel
      → IsClosed env bytes (read_loop env fuel n bytes)
  unfolding read_loop
  read_loop-IsClosed zero n bytes h = absurd (omega arith)
  read_loop-IsClosed (suc fuel) n bytes h =
      read_round-IsClosed n bytes (read_loop env fuel (n + 1))
        (read_frame env.codec env.max_frame_bytes bytes) refl
        (read_frame-AcceptsFrame env.codec env.max_frame_bytes bytes)
        (λ rest s. read_loop-IsClosed fuel (n + 1) rest (omega arith))

  -- While the supervisor holds its end of the channel, the reader thread ends whatever bytes the
  -- child has written, and it sends one event for each frame in turn: the messages that the bytes
  -- hold and that are no response, and then exactly one event that ends the request, which is the
  -- response that comes next, or the error that reading the bytes behind those messages gives. Every
  -- event bears the generation and the request that the thread was started for.
  pub read_request_messages-IsClosed :
      (bytes : List ℕ) → IsClosed env bytes (read_request_messages env bytes)
  unfolding read_request_messages
  read_request_messages-IsClosed bytes =
      read_loop-IsClosed (suc (length bytes)) 0 bytes (omega arith)
