-- ===== src/Planner/Names/Split.antt =====
-- `str::split` at the dots of a module name, as crates/lean-rs-worker-parent/src/planning.rs uses it, and
-- joining: each undoes the other.
use Prim.Native.Char.{Char, code}
use text.Mathlib.TextEquality.{Char-path}
use lean_rs.Common.{
  ◌≡◌, ◌≤◌, length, refl, sym, ap, ◌∙◌, inl, inr, true, false, List, [], ◌∷◌, ◌++◌, All, Bool-cases,
  ==_iff, arith,
}
use lean_rs.Planner.Names.{◌is◌, prepend, split}

abbrev pub dot : Char
dot = "."

-- The components joined by dots.
abbrev pub join : List (List Char) → List Char
join [] = []
join (p ∷ []) = p
join (p ∷ q ∷ ps) = p ++ dot ∷ join (q ∷ ps)

abbrev pub IsFree : Char → Type 0
IsFree c = (c is b'.') ≡ false

join-prepend : (c : Char) (ps : List (List Char)) → join (prepend c ps) ≡ c ∷ join ps
unfolding prepend
join-prepend c [] = refl
join-prepend c (p ∷ []) = refl
join-prepend c (p ∷ q ∷ ps) = refl

prepend-inhabited : (c : Char) (ps : List (List Char)) → 1 ≤ length (prepend c ps)
unfolding prepend
prepend-inhabited c [] = omega arith
prepend-inhabited c (p ∷ ps) = omega arith

pub split-inhabited : (cs : List Char) → 1 ≤ length (split b'.' cs)
unfolding split
split-inhabited [] = omega arith
split-inhabited (c ∷ cs) = elim (Bool-cases (c is b'.')) [
  | inl h ↦ rw (h, split) (omega arith)
  | inr h ↦ rw (h, split) (prepend-inhabited c (split b'.' cs))
]

join-dot : (ps : List (List Char)) → 1 ≤ length ps → join ([] ∷ ps) ≡ dot ∷ join ps
join-dot [] h = absurd (omega arith)
join-dot (p ∷ ps) h = refl

pub is_dot : (c : Char) → (c is b'.') ≡ true → c ≡ dot
is_dot c h = Char-path c dot ((==_iff (code c) b'.').0 h)

pub join-split : (cs : List Char) → join (split b'.' cs) ≡ cs
unfolding split
join-split [] = refl
join-split (c ∷ cs) = elim (Bool-cases (c is b'.')) [
  | inl h ↦
      rw (h, split)
        (join-dot (split b'.' cs) (split-inhabited cs)
          ∙ ap (◌∷◌ dot) (join-split cs)
          ∙ ap (λ d. d ∷ cs) (sym (is_dot c h)))
  | inr h ↦ rw (h, split) (join-prepend c (split b'.' cs) ∙ ap (◌∷◌ c) (join-split cs))
]

split-free : (p : List Char) → All IsFree p → split b'.' p ≡ p ∷ []
unfolding split prepend
split-free [] h = refl
split-free (c ∷ cs) h = rw (h.0, split, split-free cs h.1) refl

split-append : (p cs : List Char) → All IsFree p → split b'.' (p ++ dot ∷ cs) ≡ p ∷ split b'.' cs
unfolding split prepend
split-append [] cs h = refl
split-append (c ∷ p) cs h = rw (h.0, split, split-append p cs h.1) refl

pub split-join :
    (p : List Char) (ps : List (List Char))
    → All (All IsFree) (p ∷ ps)
    → split b'.' (join (p ∷ ps)) ≡ p ∷ ps
split-join p [] h = split-free p h.0
split-join p (q ∷ ps) h = split-append p (join (q ∷ ps)) h.0 ∙ ap (◌∷◌ p) (split-join q ps h.1)
