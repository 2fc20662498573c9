-- ===== src/Texts/Cut.antt =====
-- What the backward scan to a character's boundary keeps of a text: `bound_message` of
-- crates/lean-rs/src/error/mod.rs, `bound_rendered_info` of crates/lean-rs-worker-child/src/child.rs.
use Prim.Native.String.{len, slice}
use text.Mathlib.Text.{is_char_boundary}
use text.Mathlib.TextBridge.{IsPrefix}
use text.Mathlib.TextEquality.{slice-prefix}
use text.Mathlib.TextPositions.{boundary-zero}
use lean_rs.Common.{
  ℕ, zero, suc, String, ◌≡◌, ◌↔◌, refl, sym, subst, ◌≤◌, ◌<◌, inl, inr, true, false, leb, ◌==◌,
  ==_iff, Bool-cases, arith,
}
use lean_rs.Texts.Bound.{
  error_message_limit, cut_at, bound_text, bound_message, bound_rendered_info,
}
use lean_rs.Texts.Bootstrap.{Fills-of_boundary}

cut_at-boundary : (s : String) (n : ℕ) → is_char_boundary s (cut_at s n) ≡ true
unfolding cut_at
cut_at-boundary s zero = boundary-zero s
cut_at-boundary s (suc n) = elim (Bool-cases (is_char_boundary s (suc n))) [
  | inl at ↦ rw (at, cut_at) at
  | inr off ↦ rw (off, cut_at) (cut_at-boundary s n)
]

cut_at-le : (s : String) (n : ℕ) → cut_at s n ≤ n
unfolding cut_at
cut_at-le s zero = omega arith
cut_at-le s (suc n) = elim (Bool-cases (is_char_boundary s (suc n))) [
  | inl at ↦ rw (at, cut_at) (omega arith)
  | inr off ↦ rw (off, cut_at) (omega (arith, cut_at-le s n))
]

last_below :
    (s : String) (n k : ℕ)
    → is_char_boundary s (suc n) ≡ false
    → (k ≤ n → is_char_boundary s k ≡ false)
    → k ≤ suc n
    → is_char_boundary s k ≡ false
last_below s n k off below m = elim (Bool-cases (k == suc n)) [
  | inl top ↦ subst (λ j. is_char_boundary s j ≡ false) (sym ((==_iff k (suc n)).0 top)) off
  | inr under ↦ below (ground arith)
]

cut_at-last : (s : String) (n k : ℕ) → cut_at s n < k → k ≤ n → is_char_boundary s k ≡ false
unfolding cut_at
cut_at-last s zero k h m = absurd (omega arith)
cut_at-last s (suc n) k h m = elim (Bool-cases (is_char_boundary s (suc n))) [
  | inl at ↦ absurd (omega (arith, rw (at, cut_at) at h))
  | inr off ↦ last_below s n k off (cut_at-last s n k (rw (off, cut_at) at h)) m
]

-- The text as it is, or the longest prefix of whole characters within the limit.
pub data IsBounded (limit : ℕ) (s r : String) : Type 0 where
  whole : len s ≤ limit → r ≡ s → IsBounded limit s r
  longest_prefix :
      limit < len s
      → IsPrefix r s
      → len r ≤ limit
      → ((k : ℕ) → len r < k → k ≤ limit → is_char_boundary s k ≡ false)
      → IsBounded limit s r

len-slice-cut_at : (s : String) (n : ℕ) → len (slice s 0 (cut_at s n)) ≡ cut_at s n
len-slice-cut_at s n = Fills-of_boundary s (cut_at s n) (cut_at-boundary s n)

cut_off_it :
    (limit : ℕ) (s : String) → limit < len s → IsBounded limit s (slice s 0 (cut_at s limit))
cut_off_it limit s h =
    longest_prefix h (slice-prefix s (cut_at s limit))
      (omega (arith, len-slice-cut_at s limit, cut_at-le s limit))
      (λ k m n. cut_at-last s limit k (omega (arith, len-slice-cut_at s limit, m)) n)

bound_text-IsBounded : (limit : ℕ) (s : String) → IsBounded limit s (bound_text limit s)
unfolding bound_text
bound_text-IsBounded limit s = elim (Bool-cases (leb (len s) limit)) [
  | inl fits ↦ rw fits (whole (ground arith) refl)
  | inr long ↦ rw long (cut_off_it limit s (ground arith))
]

-- bound_message keeps a text of at most 4096 bytes as it is, and of a longer one the longest prefix of whole
-- characters within 4096 bytes.
pub bound_message-IsBounded : (s : String) → IsBounded error_message_limit s (bound_message s)
unfolding bound_message
bound_message-IsBounded s = bound_text-IsBounded error_message_limit s

-- bound_rendered_info keeps the longest prefix of whole characters within the given bytes, the whole text
-- where it fits, and says that it is truncated exactly where it does not fit.
pub bound_rendered_info-IsBounded :
    (value : String) (max_bytes : ℕ)
    → IsBounded max_bytes value (bound_rendered_info value max_bytes).value
      × (((bound_rendered_info value max_bytes).truncated ≡ true) ↔ (max_bytes < len value))
unfolding bound_rendered_info
bound_rendered_info-IsBounded value max_bytes = elim (Bool-cases (leb (len value) max_bytes)) [
  | inl fits ↦ rw fits (whole (ground arith) refl, (λ h. absurd cc, λ h. absurd (ground arith)))
  | inr long ↦ rw long (cut_off_it max_bytes value (ground arith), (λ h. ground arith, λ h. refl))
]
