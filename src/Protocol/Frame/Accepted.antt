-- ===== src/Protocol/Frame/Accepted.antt =====
-- Which bytes `read_frame` of crates/lean-rs-worker-protocol/src/protocol.rs accepts.
use lean_rs.Common.{
  ℕ, zero, suc, ◌≤◌, ◌<◌, ◌≡◌, ◌≢◌, refl, ap, inl, inr, false, Option, none, some, List, [], ◌∷◌,
  ◌++◌, length, ltb, ltb→lt, ◌==◌, ==_iff, arith, Bool-cases,
}
use lean_rs.Protocol.Frame.{
  Frame, protocol_version, Codec, unexpected_eof, json, frame_too_large, version_mismatch,
  FrameResult, ok, err, from_be_bytes, read_exact, check_version, read_body, read_sized, read_frame,
}

-- The input starts with a body of the length that the header says, within the cap.
abbrev pub HasBody : ℕ → ℕ → List ℕ → List ℕ → List ℕ → Type 0
HasBody max len input body rest = (input ≡ body ++ rest) × (length body ≡ len) × (len ≤ max)

-- An accepted frame is such a body, of the protocol's version. A frame refused for its size announces
-- more than the cap, an early end comes before the body does, a refused body is none that the codec
-- reads, and one refused for its version has another.
abbrev pub Accepts : Codec → ℕ → ℕ → List ℕ → FrameResult (Frame × List ℕ) → Type 0
Accepts codec max len input (ok (f, rest)) =
    (body : List ℕ) × HasBody max len input body rest
    × (codec.from_slice body ≡ some f)
    × (f.version ≡ protocol_version)
Accepts codec max len input (err (frame_too_large n m)) = (n ≡ len) × (m ≡ max) × (max < len)
Accepts codec max len input (err unexpected_eof) = (len ≤ max) × (length input < len)
Accepts codec max len input (err json) =
    (body : List ℕ) × (rest : List ℕ) × HasBody max len input body rest
    × (codec.from_slice body ≡ none)
Accepts codec max len input (err (version_mismatch expected actual)) =
    (body : List ℕ) × (rest : List ℕ) × (f : Frame) × HasBody max len input body rest
    × (codec.from_slice body ≡ some f)
    × (f.version ≡ actual)
    × (actual ≢ protocol_version)
    × (expected ≡ protocol_version)

-- The header is the first four bytes, big end first.
abbrev pub AcceptsFrame : Codec → ℕ → List ℕ → FrameResult (Frame × List ℕ) → Type 0
AcceptsFrame codec max (a ∷ b ∷ c ∷ d ∷ rest) r = Accepts codec max (from_be_bytes a b c d) rest r
AcceptsFrame codec max _ r = r ≡ err unexpected_eof

-- `read_exact` splits its input.
abbrev Splits : ℕ → List ℕ → Option (List ℕ × List ℕ) → Type 0
Splits n input none = length input < n
Splits n input (some (body, rest)) = (input ≡ body ++ rest) × (length body ≡ n)

read_exact-Splits : (n : ℕ) (input : List ℕ) → Splits n input (read_exact n input)
unfolding read_exact
read_exact-Splits zero input = (refl, refl)
read_exact-Splits (suc n) [] = omega arith
read_exact-Splits (suc n) (b ∷ bs) = go (read_exact n bs) (read_exact-Splits n bs)
  where
    go :
        (o : Option (List ℕ × List ℕ))
        → Splits n bs o
        → Splits (suc n) (b ∷ bs) (elim o [ none ↦ none | some (xs, rest) ↦ some (b ∷ xs, rest) ])
    go none h = omega arith
    go (some (xs, rest)) h = (ap (◌∷◌ b) h.0, ap suc h.1)

check_version-Accepts :
    (codec : Codec) (max len : ℕ) (input body rest : List ℕ) (o : Option Frame)
    → codec.from_slice body ≡ o
    → HasBody max len input body rest
    → Accepts codec max len input (check_version o rest)
unfolding check_version
check_version-Accepts codec max len input body rest none e b = (body, rest, b, e)
check_version-Accepts codec max len input body rest (some f) e b =
    elim (Bool-cases (f.version == protocol_version)) [
      | inl v ↦ rw v (body, b, e, (==_iff f.version protocol_version).0 v)
      | inr v ↦ rw v (body, rest, f, b, e, refl, differs f v, refl)
    ]
  where
    differs : (g : Frame) → (g.version == protocol_version) ≡ false → g.version ≢ protocol_version
    differs g v = ground (arith, ==_iff g.version protocol_version)

read_body-Accepts :
    (codec : Codec) (max len : ℕ) (input : List ℕ) (o : Option (List ℕ × List ℕ))
    → Splits len input o
    → len ≤ max
    → Accepts codec max len input (read_body codec o)
unfolding read_body
read_body-Accepts codec max len input none s h = (h, s)
read_body-Accepts codec max len input (some (body, rest)) s h =
    check_version-Accepts codec max len input body rest (codec.from_slice body) refl (s.0, s.1, h)

read_sized-Accepts :
    (codec : Codec) (max len : ℕ) (input : List ℕ)
    → Accepts codec max len input (read_sized codec max len input)
unfolding read_sized
read_sized-Accepts codec max len input = elim (Bool-cases (ltb max len)) [
  | inl f ↦ rw f (refl, refl, ltb→lt max len f)
  | inr f ↦ rw f (
      read_body-Accepts codec max len input (read_exact len input) (read_exact-Splits len input)
        (ground arith))
]

-- Whatever bytes arrive, a frame that is read is a body of the announced length, no longer than the
-- cap and of the protocol's version, and the bytes behind it are left; and each refusal has its
-- cause: for its size, that the announced length is over the cap; for an early end, that fewer bytes
-- than announced follow, or that there are not four bytes for the header; for its text, that the body
-- is there and the codec does not read it; for its version, that the codec reads a frame of another.
pub read_frame-AcceptsFrame :
    (codec : Codec) (max : ℕ) (input : List ℕ)
    → AcceptsFrame codec max input (read_frame codec max input)
unfolding read_frame
read_frame-AcceptsFrame codec max [] = refl
read_frame-AcceptsFrame codec max (a ∷ []) = refl
read_frame-AcceptsFrame codec max (a ∷ b ∷ []) = refl
read_frame-AcceptsFrame codec max (a ∷ b ∷ c ∷ []) = refl
read_frame-AcceptsFrame codec max (a ∷ b ∷ c ∷ d ∷ rest) =
    read_sized-Accepts codec max (from_be_bytes a b c d) rest
