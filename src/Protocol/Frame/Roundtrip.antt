-- ===== src/Protocol/Frame/Roundtrip.antt =====
-- `read_frame` on the bytes of `write_frame`, of crates/lean-rs-worker-protocol/src/protocol.rs.
use lean_rs.Common.{
  ℕ, ◌/◌, ◌%◌, ◌≤◌, ◌≡◌, refl, inl, inr, false, Option, none, some, List, [], ◌∷◌, ◌++◌, length,
  ltb, u32_max, arith, Bool-cases,
}
use lean_rs.Protocol.Message.{Message}
use lean_rs.Protocol.Frame.{
  new_frame, Codec, ProtocolError, ok, err, to_be_bytes, from_be_bytes, write_body, write_encoded,
  write_frame, read_exact, check_version, read_body, read_sized, read_frame,
}

be_bytes-back :
    (n : ℕ)
    → n ≤ u32_max
    → from_be_bytes ((n / 16777216) % 256) ((n / 65536) % 256) ((n / 256) % 256) (n % 256) ≡ n
unfolding from_be_bytes
be_bytes-back n h = omega arith

read_exact-append :
    (bytes rest : List ℕ) → read_exact (length bytes) (bytes ++ rest) ≡ some (bytes, rest)
unfolding read_exact
read_exact-append [] rest = refl
read_exact-append (b ∷ bs) rest = rw (read_exact-append bs rest) refl

read_sized-append :
    (codec : Codec) (message : Message) (body rest : List ℕ) (max len : ℕ)
    → len ≡ length body
    → ltb max (length body) ≡ false
    → codec.from_slice body ≡ some (new_frame message)
    → read_sized codec max len (body ++ rest) ≡ ok (new_frame message, rest)
unfolding read_sized read_body check_version new_frame
read_sized-append codec message body rest max len e g d =
    rw (e, g, read_exact-append body rest, d) refl

read_frame-append :
    (codec : Codec) (message : Message) (body rest : List ℕ) (max : ℕ)
    → length body ≤ u32_max
    → ltb max (length body) ≡ false
    → codec.from_slice body ≡ some (new_frame message)
    → read_frame codec max ((to_be_bytes (length body) ++ body) ++ rest)
      ≡ ok (new_frame message, rest)
unfolding read_frame to_be_bytes
read_frame-append codec message body rest max h g d =
    read_sized-append codec message body rest max _ (be_bytes-back (length body) h) g d

written : {x y : List ℕ} → ok x ≡ ok y → x ≡ y
written h = cc

refused : {x : ProtocolError} {y : List ℕ} → err x ≡ ok y → ⊥
refused h = cc

write_body-read_frame :
    (codec : Codec) (message : Message) (body bytes rest : List ℕ) (max : ℕ)
    → codec.from_slice body ≡ some (new_frame message)
    → write_body body max ≡ ok bytes
    → read_frame codec max (bytes ++ rest) ≡ ok (new_frame message, rest)
unfolding write_body
write_body-read_frame codec message body bytes rest max d w =
    elim (Bool-cases (ltb u32_max (length body))) [
      | inl f ↦ absurd (refused (rw f at w))
      | inr f ↦ elim (Bool-cases (ltb max (length body))) [
        | inl g ↦ absurd (refused (rw (f, g) at w))
        | inr g ↦
            rw (← written (rw (f, g) at w))
              (read_frame-append codec message body rest max (ground arith) g d)
      ]
    ]

write_encoded-read_frame :
    (codec : Codec) (message : Message) (o : Option (List ℕ)) (bytes rest : List ℕ) (max : ℕ)
    → codec.to_vec (new_frame message) ≡ o
    → write_encoded o max ≡ ok bytes
    → read_frame codec max (bytes ++ rest) ≡ ok (new_frame message, rest)
unfolding write_encoded
write_encoded-read_frame codec message none bytes rest max e w = absurd (refused w)
write_encoded-read_frame codec message (some body) bytes rest max e w =
    write_body-read_frame codec message body bytes rest max
      (codec.roundtrip (new_frame message) body e) w

-- What a frame writer accepts, a frame reader with the same cap gives back, followed by whatever
-- comes after it. The codec reads back what it serialised.
pub write_frame-read_frame :
    (codec : Codec) (message : Message) (max : ℕ) (bytes rest : List ℕ)
    → write_frame codec message max ≡ ok bytes
    → read_frame codec max (bytes ++ rest) ≡ ok (new_frame message, rest)
unfolding write_frame
write_frame-read_frame codec message max bytes rest w =
    write_encoded-read_frame codec message (codec.to_vec (new_frame message)) bytes rest max refl w
