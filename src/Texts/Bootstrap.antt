-- ===== src/Texts/Bootstrap.antt =====
-- The loop of `bound_bootstrap_text` in crates/lean-rs-worker-parent/src/capability.rs: where it ends and where
-- it does not.
use Prim.Native.Nat.{compare as compare_ℕ, ◌-◌}
use Prim.Native.Char.{Char, len_utf8}
use Prim.Native.String.{[] as nil_text, ◌∷◌ as cons_text, ◌++◌ as ◌+++◌, len, slice, fits}
use Prim.Native.String.slice as slices
use Prim.Native.String.len as lens
use Prim.Native.String.append as appends
use text.Mathlib.Text.{is_char_boundary}
use text.Mathlib.TextBridge.{IsPrefix}
use text.Mathlib.TextPositions.{boundary-zero}
use text.Mathlib.TextLemmas.{append-nil}
use lean_rs.Common.{
  ℕ, zero, suc, String, ◌≡◌, refl, sym, ap, subst, ◌∙◌, ◌+◌, ◌≤◌, ◌<◌, ◌⊎◌, inl, inr, true, false,
  Option, none, some, leb, Bool-cases, arith,
}
use lean_rs.Common.Order.{Ordering-cases}
use lean_rs.Texts.Bound.{pop, pop_until_boundary, cut_off, bound_bootstrap_text, bootstrap_limit}

-- The whole characters up to `k` fill `k` bytes.
abbrev pub Fills : String → ℕ → Type 0
Fills s k = len (slice s 0 k) ≡ k

pub Fills-of_boundary : (s : String) (k : ℕ) → is_char_boundary s k ≡ true → Fills s k
Fills-of_boundary s k h = ground arith

boundary-of_Fills : (s : String) (k : ℕ) → Fills s k → is_char_boundary s k ≡ true
boundary-of_Fills s k h = ground arith

le_or_lt : (m n : ℕ) → (m ≤ n) ⊎ (n < m)
le_or_lt m n = ground arith

Fills-zero : (s : String) → Fills s 0
Fills-zero s = Fills-of_boundary s 0 (boundary-zero s)

slice-wide :
    (c : Char) (s : String) (k : ℕ)
    → len_utf8 c ≤ k
    → slice (cons_text c s) 0 k ≡ cons_text c (slice s 0 (k - len_utf8 c))
slice-wide c s k w = slices.cons-zero c s k ∙ fits_wide
  where
    fits_wide :
        fits (compare_ℕ (len_utf8 c) k) c (slice s 0 (k - len_utf8 c))
        ≡ cons_text c (slice s 0 (k - len_utf8 c))
    fits_wide = elim (Ordering-cases (compare_ℕ (len_utf8 c) k)) [
      | inl lt ↦ rw lt refl
      | inr (inl eq) ↦ rw eq refl
      | inr (inr gt) ↦ absurd (ground arith)
    ]

slice-narrow :
    (c : Char) (s : String) (k : ℕ) → k < len_utf8 c → slice (cons_text c s) 0 k ≡ nil_text
slice-narrow c s k w = slices.cons-zero c s k ∙ fits_narrow
  where
    fits_narrow : fits (compare_ℕ (len_utf8 c) k) c (slice s 0 (k - len_utf8 c)) ≡ nil_text
    fits_narrow = elim (Ordering-cases (compare_ℕ (len_utf8 c) k)) [
      | inl lt ↦ absurd (ground arith)
      | inr (inl eq) ↦ absurd (ground arith)
      | inr (inr gt) ↦ rw gt refl
    ]

len-slice-wide :
    (c : Char) (s : String) (k : ℕ)
    → len_utf8 c ≤ k
    → len (slice (cons_text c s) 0 k) ≡ len_utf8 c + len (slice s 0 (k - len_utf8 c))
len-slice-wide c s k w = ap len (slice-wide c s k w) ∙ lens.cons c (slice s 0 (k - len_utf8 c))

-- A boundary of a text is one of every longer text.
Fills-append : (t u : String) (k : ℕ) → Fills t k → Fills (t +++ u) k
Fills-append nil_text u k h =
    subst (Fills (nil_text +++ u)) (sym (ap len (slices.nil 0 k)) ∙ h) (Fills-zero (nil_text +++ u))
Fills-append (cons_text c t) u k h =
    subst (λ v. Fills v k) (sym (appends.cons c t u))
      (elim (le_or_lt (len_utf8 c) k) [
        | inl w ↦
            let rest =
              Fills-append t u (k - len_utf8 c) (omega (arith, len-slice-wide c t k w, h)) in
            omega (arith, len-slice-wide c (t +++ u) k w, rest)
        | inr w ↦
            subst (Fills (cons_text c (t +++ u)))
              (sym lens.nil ∙ sym (ap len (slice-narrow c t k w)) ∙ h)
              (Fills-zero (cons_text c (t +++ u)))
      ])

pop-prefix : (s : String) → IsPrefix (pop s) s
unfolding pop
pop-prefix nil_text = (nil_text, append-nil nil_text)
pop-prefix (cons_text c nil_text) = (cons_text c nil_text, appends.nil (cons_text c nil_text))
pop-prefix (cons_text c (cons_text d s)) =
    let (u, e) = pop-prefix (cons_text d s) in
    (u, appends.cons c (pop (cons_text d s)) u ∙ ap (λ v. cons_text c v) e)

-- A text without a boundary at `k` has none there after a `pop`.
pop-boundary :
    (s : String) (k : ℕ) → is_char_boundary s k ≡ false → is_char_boundary (pop s) k ≡ false
pop-boundary s k h = elim (Bool-cases (is_char_boundary (pop s) k)) [
  | inr other ↦ other
  | inl found ↦
      let (u, e) = pop-prefix s in
      let fills = Fills-append (pop s) u k (Fills-of_boundary (pop s) k found) in
      absurd (cc (h, boundary-of_Fills s k (subst (λ v. Fills v k) e fills)))
]

pop_until_boundary-none :
    (rounds k : ℕ) (s : String)
    → is_char_boundary s k ≡ false
    → pop_until_boundary rounds k s ≡ none
unfolding pop_until_boundary
pop_until_boundary-none zero k s h = rw h refl
pop_until_boundary-none (suc rounds) k s h =
    rw h (pop_until_boundary-none rounds k (pop s) (pop-boundary s k h))

pop_until_boundary-some :
    (rounds k : ℕ) (s : String)
    → is_char_boundary s k ≡ true
    → pop_until_boundary rounds k s ≡ some s
unfolding pop_until_boundary
pop_until_boundary-some zero k s h = rw h refl
pop_until_boundary-some (suc rounds) k s h = rw h refl

-- What the call gives after any number of rounds of its loop.
pub data Bounded (text : String) (result : ℕ → Option String) : Type 0 where
  short :
      len text ≤ bootstrap_limit → ((rounds : ℕ) → result rounds ≡ some text) → Bounded text result
  cut :
      bootstrap_limit < len text
      → is_char_boundary text bootstrap_limit ≡ true
      → ((rounds : ℕ) → result rounds ≡ some (slice text 0 bootstrap_limit +++ "..."))
      → Bounded text result
  endless :
      bootstrap_limit < len text
      → is_char_boundary text bootstrap_limit ≡ false
      → ((rounds : ℕ) → result rounds ≡ none)
      → Bounded text result

bound_long :
    (text : String)
    → leb (len text) bootstrap_limit ≡ false
    → Bounded text (λ rounds. bound_bootstrap_text rounds text)
unfolding bound_bootstrap_text cut_off
bound_long text long = elim (Bool-cases (is_char_boundary text bootstrap_limit)) [
  | inl at ↦
      cut (ground arith) at
        (λ rounds. rw (long, pop_until_boundary-some rounds bootstrap_limit text at) refl)
  | inr off ↦
      endless (ground arith) off
        (λ rounds. rw (long, pop_until_boundary-none rounds bootstrap_limit text off) refl)
]

-- For every text, bound_bootstrap_text returns the text if it has at most 1024 bytes, and else its first
-- 1024 bytes and an ellipsis if a character ends there; otherwise no number of rounds of its loop ends it.
pub bound_bootstrap_text-Bounded :
    (text : String) → Bounded text (λ rounds. bound_bootstrap_text rounds text)
unfolding bound_bootstrap_text
bound_bootstrap_text-Bounded text = elim (Bool-cases (leb (len text) bootstrap_limit)) [
  | inl fits ↦ short (ground arith) (λ rounds. rw fits refl)
  | inr long ↦ bound_long text long
]
