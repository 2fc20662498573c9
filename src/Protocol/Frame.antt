-- ===== src/Protocol/Frame.antt =====
-- crates/lean-rs-worker-protocol/src/protocol.rs: the length-delimited frames. The JSON codec is a
-- parameter; a writer appends to a buffer, and a reader takes from a list of bytes.
pub mod Roundtrip
pub mod Accepted
use lean_rs.Common.{
  ℕ, zero, suc, ◌+◌, ◌*◌, ◌/◌, ◌%◌, Bool, true, false, Option, none, some, List, [], ◌∷◌, ◌++◌,
  length, leb, ltb, ◌==◌, u32_max, ◌≡◌, if◌then◌else◌,
}
use lean_rs.Protocol.Message.{Message}

abbrev pub protocol_version : ℕ
protocol_version = 10

pub record Frame : Type 0 where
  pub version : ℕ
  pub message : Message

-- `Frame::new`.
unfoldable pub new_frame : Message → Frame
new_frame message = record { version = protocol_version; message = message }

-- serde_json: serialising may fail, and what was serialised reads back.
pub record Codec : Type 0 where
  pub to_vec : Frame → Option (List ℕ)
  pub from_slice : List ℕ → Option Frame
  pub roundtrip : (f : Frame) (bytes : List ℕ) → to_vec f ≡ some bytes → from_slice bytes ≡ some f

pub data ProtocolError : Type 0 where
  unexpected_eof json : ProtocolError
  frame_too_large : ℕ → ℕ → ProtocolError
  version_mismatch : ℕ → ℕ → ProtocolError

pub data FrameResult (A : Type 0) : Type 0 where
  ok : A → FrameResult A
  err : ProtocolError → FrameResult A

-- `u32::to_be_bytes` and `u32::from_be_bytes`.
unfoldable pub to_be_bytes : ℕ → List ℕ
to_be_bytes n = (n / 16777216) % 256 ∷ (n / 65536) % 256 ∷ (n / 256) % 256 ∷ n % 256 ∷ []

unfoldable pub from_be_bytes : ℕ → ℕ → ℕ → ℕ → ℕ
from_be_bytes a b c d = a * 16777216 + b * 65536 + c * 256 + d

write_body : List ℕ → ℕ → FrameResult (List ℕ)
write_body bytes max =
    if ltb u32_max (length bytes)
    then err (frame_too_large u32_max max)
    else if ltb max (length bytes)
    then err (frame_too_large (length bytes) max)
    else ok (to_be_bytes (length bytes) ++ bytes)

write_encoded : Option (List ℕ) → ℕ → FrameResult (List ℕ)
unfolding write_body
write_encoded none max = err json
write_encoded (some bytes) max = write_body bytes max

-- `write_frame`: the bytes that it appends.
unfoldable pub write_frame : Codec → Message → ℕ → FrameResult (List ℕ)
unfolding write_encoded
write_frame codec message max = write_encoded (codec.to_vec (new_frame message)) max

-- `read_exact`: the first `n` bytes and the rest, or too few.
unfoldable pub read_exact : ℕ → List ℕ → Option (List ℕ × List ℕ)
read_exact zero bytes = some ([], bytes)
read_exact (suc n) [] = none
read_exact (suc n) (b ∷ bs) = elim (read_exact n bs) [
  | none ↦ none
  | some (xs, rest) ↦ some (b ∷ xs, rest)
]

check_version : Option Frame → List ℕ → FrameResult (Frame × List ℕ)
check_version none rest = err json
check_version (some f) rest =
    if f.version == protocol_version
    then ok (f, rest)
    else err (version_mismatch protocol_version f.version)

read_body : Codec → Option (List ℕ × List ℕ) → FrameResult (Frame × List ℕ)
unfolding check_version
read_body codec none = err unexpected_eof
read_body codec (some (bytes, rest)) = check_version (codec.from_slice bytes) rest

read_sized : Codec → ℕ → ℕ → List ℕ → FrameResult (Frame × List ℕ)
unfolding read_body
read_sized codec max len rest =
    if ltb max len then err (frame_too_large len max) else read_body codec (read_exact len rest)

-- `read_frame`: the frame and the bytes that it leaves.
unfoldable pub read_frame : Codec → ℕ → List ℕ → FrameResult (Frame × List ℕ)
unfolding read_sized
read_frame codec max (a ∷ b ∷ c ∷ d ∷ rest) = read_sized codec max (from_be_bytes a b c d) rest
read_frame codec max _ = err unexpected_eof
