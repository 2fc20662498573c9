-- ===== src/Protocol/Tests.antt =====
-- The protocol's theorems at concrete frames and rows. The codec here writes a frame limit as two
-- numbers, and no other message.
use lean_rs.Common.{ℕ, ◌≡◌, refl, Option, none, some, List, [], ◌∷◌, ◌++◌, arith}
use lean_rs.Protocol.Message.{Message, configure_frame_limit}
use lean_rs.Protocol.Frame.{Frame, new_frame, Codec, ok, write_frame, read_frame, to_be_bytes}
use lean_rs.Protocol.Frame.Roundtrip.{write_frame-read_frame}
use lean_rs.Protocol.Frame.Accepted.{AcceptsFrame, read_frame-AcceptsFrame}
use lean_rs.Protocol.Rows.{new_emitter, emit_all}
use lean_rs.Protocol.Rows.Numbered.{IsNumbered, emit_all-IsNumbered}

abbrev limit_to_vec : ℕ → Message → Option (List ℕ)
limit_to_vec version (configure_frame_limit n) = some (version ∷ n ∷ [])
limit_to_vec version _ = none

abbrev limit_from_slice : List ℕ → Option Frame
limit_from_slice (version ∷ n ∷ []) =
    some (record { version = version; message = configure_frame_limit n })
limit_from_slice _ = none

same_bytes : {x y : List ℕ} → some x ≡ some y → x ≡ y
same_bytes h = cc

limit_roundtrip :
    (version : ℕ) (message : Message) (bytes : List ℕ)
    → limit_to_vec version message ≡ some bytes
    → limit_from_slice bytes ≡ some (record { version = version; message = message })
limit_roundtrip version (configure_frame_limit n) bytes h = rw (← same_bytes h) refl
limit_roundtrip version _ bytes h = cc

abbrev limit_codec : Codec
limit_codec = record {
  to_vec = λ f. limit_to_vec f.version f.message;
  from_slice = limit_from_slice;
  roundtrip = λ f. limit_roundtrip f.version f.message;
}

limit_written :
    write_frame limit_codec (configure_frame_limit 65536) 16 ≡ ok (0 ∷ 0 ∷ 0 ∷ 2 ∷ 10 ∷ 65536 ∷ [])
unfolding write_frame new_frame to_be_bytes
limit_written = refl

write_frame-read_frame_example :
    read_frame limit_codec 16 ((0 ∷ 0 ∷ 0 ∷ 2 ∷ 10 ∷ 65536 ∷ []) ++ 7 ∷ [])
    ≡ ok (new_frame (configure_frame_limit 65536), 7 ∷ [])
write_frame-read_frame_example =
    write_frame-read_frame limit_codec (configure_frame_limit 65536) 16
      (0 ∷ 0 ∷ 0 ∷ 2 ∷ 10 ∷ 65536 ∷ []) (7 ∷ []) limit_written

read_frame-AcceptsFrame_example :
    AcceptsFrame limit_codec 16
      (0 ∷ 0 ∷ 1 ∷ 0 ∷ 10 ∷ [])
      (read_frame limit_codec 16 (0 ∷ 0 ∷ 1 ∷ 0 ∷ 10 ∷ []))
read_frame-AcceptsFrame_example = read_frame-AcceptsFrame limit_codec 16 (0 ∷ 0 ∷ 1 ∷ 0 ∷ 10 ∷ [])

emit_all-IsNumbered_example :
    IsNumbered [] (emit_all (("a", []) ∷ ("b", []) ∷ ("a", []) ∷ []) new_emitter).0
    × ((emit_all (("a", []) ∷ ("b", []) ∷ ("a", []) ∷ []) new_emitter).1.count ≡ 3)
emit_all-IsNumbered_example =
    emit_all-IsNumbered (("a", []) ∷ ("b", []) ∷ ("a", []) ∷ []) (omega arith)
