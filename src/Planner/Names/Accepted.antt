-- ===== src/Planner/Names/Accepted.antt =====
-- Which names `validate_module_name` of crates/lean-rs-worker-parent/src/planning.rs accepts.
use Prim.Native.Char.{Char}
use lean_rs.Common.{
  String, ◌≡◌, ◌≤◌, length, ◌↔◌, refl, sym, ap, subst, ◌∙◌, inl, inr, true, false, not, Option,
  none, some, List, [], ◌∷◌, All, Bool-cases, Option-cases, arith,
}
use lean_rs.Common.Options.{map}
use lean_rs.Common.Equality.{◌=?◌, string_eq, beq_sound}
use lean_rs.Planner.Names.Split.{dot, join, IsFree, is_dot, join-split, split-join, split-inhabited}
use lean_rs.Planner.Names.{
  invalid_module_name, chars, ◌is◌, split, any, CharClass, may_begin, may_follow, check_component,
  check_components, validate_module_name,
}

module _ (class : CharClass) where
  -- A component: a letter or an underscore, then letters, digits, underscores and apostrophes.
  abbrev pub IsComponent : List Char → Type 0
  IsComponent [] = ⊥
  IsComponent (c ∷ cs) = (may_begin class c ≡ true) × All (λ d. may_follow class d ≡ true) cs

  any_none :
      (cs : List Char)
      → any (λ c. not (may_follow class c)) cs ≡ false
      → All (λ d. may_follow class d ≡ true) cs
  unfolding any
  any_none [] h = tt
  any_none (c ∷ cs) h = (ground arith, any_none cs (ground arith))

  none_any :
      (cs : List Char)
      → All (λ d. may_follow class d ≡ true) cs
      → any (λ c. not (may_follow class c)) cs ≡ false
  unfolding any
  none_any [] h = refl
  none_any (c ∷ cs) h = rw (h.0) (none_any cs h.1)

  check_component-IsComponent : (p : List Char) → check_component class p ≡ none → IsComponent p
  unfolding check_component
  check_component-IsComponent [] h = absurd cc
  check_component-IsComponent (c ∷ cs) h = (ground arith, any_none cs (ground arith))

  IsComponent-check_component : (p : List Char) → IsComponent p → check_component class p ≡ none
  unfolding check_component
  IsComponent-check_component [] h = absurd h
  IsComponent-check_component (c ∷ cs) h = rw (h.0, none_any cs h.1) refl

  check_components-IsComponent :
      (ps : List (List Char)) → check_components class ps ≡ none → All IsComponent ps
  unfolding check_components
  check_components-IsComponent [] h = tt
  check_components-IsComponent (p ∷ ps) h = elim (Option-cases (check_component class p)) [
    | inl ok ↦ (check_component-IsComponent p ok, check_components-IsComponent ps (rw ok at h))
    | inr (e, bad) ↦ absurd (cc (rw bad at h))
  ]

  IsComponent-check_components :
      (ps : List (List Char)) → All IsComponent ps → check_components class ps ≡ none
  unfolding check_components
  IsComponent-check_components [] h = refl
  IsComponent-check_components (p ∷ ps) h =
      rw (IsComponent-check_component p h.0) (IsComponent-check_components ps h.1)

  -- A name is dotted components, at least one.
  pub record IsModuleName (name : String) : Type 0 where
    pub first : List Char
    pub others : List (List Char)
    pub dotted : chars name ≡ join (first ∷ others)
    pub components : All IsComponent (first ∷ others)

  map-none :
      (name : String) (o : Option String) → map (invalid_module_name name) o ≡ none → o ≡ none
  map-none name none h = refl
  map-none name (some s) h = absurd cc

  named :
      (name : String) (ps : List (List Char))
      → join ps ≡ chars name
      → 1 ≤ length ps
      → All IsComponent ps
      → IsModuleName name
  named name [] e h all = absurd (omega arith)
  named name (p ∷ ps) e h all = record { first = p; others = ps; dotted = sym e; components = all }

  accepted-IsModuleName :
      (name : String) → validate_module_name class name ≡ none → IsModuleName name
  unfolding validate_module_name
  accepted-IsModuleName name h = elim (Bool-cases (name =? "")) [
    | inl empty ↦ absurd (cc (rw empty at h))
    | inr full ↦
        let ps = split b'.' (chars name) in
        named name ps (join-split (chars name)) (split-inhabited (chars name)) (
          check_components-IsComponent ps
            (map-none name (check_components class ps) (rw full at h)))
  ]

  join-inhabited :
      (p : List Char) (ps : List (List Char)) → IsComponent p → 1 ≤ length (join (p ∷ ps))
  join-inhabited [] ps h = absurd h
  join-inhabited (c ∷ cs) [] h = omega arith
  join-inhabited (c ∷ cs) (q ∷ ps) h = omega arith

  not_empty : (name : String) → 1 ≤ length (chars name) → (name =? "") ≡ false
  not_empty name h = elim (Bool-cases (name =? "")) [
    | inr full ↦ full
    | inl empty ↦
        absurd (omega (arith, subst (λ n. 1 ≤ length (chars n)) (beq_sound name "" empty) h))
  ]

  module _ (no_letter : class.is_alphabetic dot ≡ false)
      (no_digit : class.is_alphanumeric dot ≡ false) where
    follow-IsFree : (c : Char) → may_follow class c ≡ true → IsFree c
    unfolding may_follow
    follow-IsFree c h = elim (Bool-cases (c is b'.')) [
      | inr other ↦ other
      | inl same ↦ absurd (cc (no_digit, subst (λ d. may_follow class d ≡ true) (is_dot c same) h))
    ]

    begin-IsFree : (c : Char) → may_begin class c ≡ true → IsFree c
    unfolding may_begin
    begin-IsFree c h = elim (Bool-cases (c is b'.')) [
      | inr other ↦ other
      | inl same ↦ absurd (cc (no_letter, subst (λ d. may_begin class d ≡ true) (is_dot c same) h))
    ]

    rest-IsFree : (cs : List Char) → All (λ d. may_follow class d ≡ true) cs → All IsFree cs
    rest-IsFree [] h = tt
    rest-IsFree (c ∷ cs) h = (follow-IsFree c h.0, rest-IsFree cs h.1)

    component-IsFree : (p : List Char) → IsComponent p → All IsFree p
    component-IsFree [] h = tt
    component-IsFree (c ∷ cs) h = (begin-IsFree c h.0, rest-IsFree cs h.1)

    components-IsFree : (ps : List (List Char)) → All IsComponent ps → All (All IsFree) ps
    components-IsFree [] h = tt
    components-IsFree (p ∷ ps) h = (component-IsFree p h.0, components-IsFree ps h.1)

    IsModuleName-accepted :
        (name : String) → IsModuleName name → validate_module_name class name ≡ none
    unfolding validate_module_name
    IsModuleName-accepted name m =
        let inhabited =
          subst (λ cs. 1 ≤ length cs) (sym m.dotted)
            (join-inhabited m.first m.others m.components.0) in
        let parts =
          ap (split b'.') m.dotted
          ∙ split-join m.first m.others (components-IsFree (m.first ∷ m.others) m.components) in
        rw
          (
            not_empty name inhabited,
            parts,
            IsComponent-check_components (m.first ∷ m.others) m.components,
          )
          refl

    -- Where the dot is neither a letter nor a digit, validate_module_name accepts exactly the names that
    -- are one or more components joined by dots, each a letter or an underscore followed by letters,
    -- digits, underscores and apostrophes.
    pub validate_module_name-accepts :
        (name : String) → (validate_module_name class name ≡ none) ↔ IsModuleName name
    validate_module_name-accepts name = (accepted-IsModuleName name, IsModuleName-accepted name)
