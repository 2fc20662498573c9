-- ===== src/Planner/Names.antt =====
-- crates/lean-rs-worker-parent/src/planning.rs: `LeanWorkerImportPlanError` and
-- `validate_module_name`. The Unicode tables behind `is_alphabetic` and `is_alphanumeric` are arguments.
pub mod Split
pub mod Accepted
use Prim.Native.Char.{Char, code}
use Prim.Native.String.{[] as nil_text, ◌∷◌ as cons_text}
use lean_rs.Common.{
  ℕ, String, Bool, false, not, ◌||◌, Option, none, some, List, [], ◌∷◌, ◌==◌, if◌then◌else◌,
}
use lean_rs.Common.Options.{map, or_else}
use lean_rs.Common.Equality.{◌=?◌, string_eq}

-- The reasons are the texts of the source; a discovery diagnostic is its text.
pub data LeanWorkerImportPlanError : Type 0 where
  module_discovery : String → LeanWorkerImportPlanError
  invalid_module_name : String → String → LeanWorkerImportPlanError
  unresolved_capability_target : String → String → LeanWorkerImportPlanError

-- `s.chars()`.
abbrev pub chars : String → List Char
chars nil_text = []
chars (cons_text c s) = c ∷ chars s

infix 50 ◌is◌
abbrev pub ◌is◌ : Char → ℕ → Bool
c is n = code c == n

prepend : Char → List (List Char) → List (List Char)
prepend c [] = (c ∷ []) ∷ []
prepend c (p ∷ ps) = (c ∷ p) ∷ ps

-- `s.split(sep)`: the parts between the separators, of which there is one more than separators.
unfoldable pub split : ℕ → List Char → List (List Char)
unfolding prepend
split sep [] = [] ∷ []
split sep (c ∷ cs) = let rest = split sep cs in if c is sep then [] ∷ rest else prepend c rest

any : (Char → Bool) → List Char → Bool
any p [] = false
any p (c ∷ cs) = p c || any p cs

-- What a module component may be.
pub record CharClass : Type 0 where
  pub is_alphabetic : Char → Bool
  pub is_alphanumeric : Char → Bool

-- What a planning step returns.
pub data PlanResult {ℓ} (A : Type ℓ) : Type ℓ where
  planned : A → PlanResult A
  refused : LeanWorkerImportPlanError → PlanResult A

abbrev pub empty_name : String
empty_name = "module name is empty"

abbrev pub empty_component : String
empty_component = "module name contains an empty component"

abbrev pub bad_first : String
bad_first = "module components must begin with a letter or underscore"

abbrev pub bad_rest : String
bad_rest = "module components may contain only letters, digits, underscores, or apostrophes"

module _ (class : CharClass) where
  unfoldable pub may_begin : Char → Bool
  may_begin c = (c is b'_') || class.is_alphabetic c

  unfoldable pub may_follow : Char → Bool
  may_follow c = (c is b'_') || (c is b'\'') || class.is_alphanumeric c

  -- One round of the loop over the components: the reason of a refusal.
  unfoldable pub check_component : List Char → Option String
  unfolding may_begin may_follow any
  check_component [] = some empty_component
  check_component (first ∷ rest) =
      if not (may_begin first)
      then some bad_first
      else if any (λ c. not (may_follow c)) rest
      then some bad_rest
      else none

  unfoldable pub check_components : List (List Char) → Option String
  unfolding check_component
  check_components [] = none
  check_components (c ∷ cs) = or_else (check_component c) (check_components cs)

  -- `validate_module_name`: `none` is `Ok(())`.
  unfoldable pub validate_module_name : String → Option LeanWorkerImportPlanError
  unfolding split check_components
  validate_module_name name =
      if name =? ""
      then some (invalid_module_name name empty_name)
      else map (invalid_module_name name) (check_components (split b'.' (chars name)))
