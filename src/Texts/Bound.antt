-- ===== src/Texts/Bound.antt =====
-- Bounds on the bytes of a text: crates/lean-rs/src/error/mod.rs `bound_message`,
-- crates/lean-toolchain/src/loader.rs `bound_loader_text`, crates/lean-rs-worker-child/src/child.rs
-- `bound_rendered_info`, and crates/lean-rs-worker-parent/src/capability.rs `bound_bootstrap_text`.
use Prim.Native.String.{[] as nil_text, ◌∷◌ as cons_text, ◌++◌ as ◌+++◌, len, slice}
use text.Mathlib.Text.{is_char_boundary}
use lean_rs.Common.{ℕ, zero, suc, String, Bool, true, false, Option, none, some, leb, if◌then◌else◌}

abbrev pub error_message_limit : ℕ
error_message_limit = 4096

-- The backward scan `while cut > 0 && !s.is_char_boundary(cut) { cut -= 1 }`.
unfoldable pub cut_at : String → ℕ → ℕ
cut_at s zero = zero
cut_at s (suc cut) =
    let below = cut_at s cut in if is_char_boundary s (suc cut) then suc cut else below

-- The texts of `bound_message` and `bound_loader_text`: both limits are 4096 bytes.
unfoldable pub bound_text : ℕ → String → String
unfolding cut_at
bound_text limit s = if leb (len s) limit then s else slice s 0 (cut_at s limit)

unfoldable pub bound_message : String → String
unfolding bound_text
bound_message = bound_text error_message_limit

unfoldable pub bound_loader_text : String → String
unfolding bound_text
bound_loader_text = bound_text error_message_limit

pub record LeanWorkerRenderedInfo : Type 0 where
  pub value : String
  pub truncated : Bool

-- The scan here has no test against zero; zero is a boundary, where it stops.
unfoldable pub bound_rendered_info : String → ℕ → LeanWorkerRenderedInfo
unfolding cut_at
bound_rendered_info value max_bytes =
    if leb (len value) max_bytes
    then record { value = value; truncated = false }
    else record { value = slice value 0 (cut_at value max_bytes); truncated = true }

-- `String::pop`, less the character that it returns.
unfoldable pub pop : String → String
pop nil_text = nil_text
pop (cons_text c nil_text) = nil_text
pop (cons_text c (cons_text d s)) = cons_text c (pop (cons_text d s))

abbrev pub bootstrap_limit : ℕ
bootstrap_limit = 1024

-- `while !text.is_char_boundary(LIMIT) { text.pop(); }`, for so many rounds.
unfoldable pub pop_until_boundary : ℕ → ℕ → String → Option String
unfolding pop
pop_until_boundary zero limit text = if is_char_boundary text limit then some text else none
pop_until_boundary (suc rounds) limit text =
    let later = pop_until_boundary rounds limit (pop text) in
    if is_char_boundary text limit then some text else later

unfoldable pub cut_off : ℕ → Option String → Option String
cut_off limit none = none
cut_off limit (some text) = some (slice text 0 limit +++ "...")

-- `none` while the rounds do not suffice.
unfoldable pub bound_bootstrap_text : ℕ → String → Option String
unfolding pop_until_boundary cut_off
bound_bootstrap_text rounds text =
    if leb (len text) bootstrap_limit
    then some text
    else cut_off bootstrap_limit (pop_until_boundary rounds bootstrap_limit text)
