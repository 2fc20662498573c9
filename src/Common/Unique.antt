-- ===== src/Common/Unique.antt =====
-- Membership by a derived equality, and lists in which nothing occurs twice.
use mathlib.Core.Path.{◌≡◌, refl}
use mathlib.Core.Logic.{inl, inr}
use mathlib.Core.Bool.{Bool, false, ◌||◌}
use mathlib.Core.List.{List, [], ◌∷◌, ◌++◌}
use native.Mathlib.Omega.{arith}
use lean_rs.Common.Tests.{Bool-cases}
use lean_rs.Common.Equality.{Eq, ◌=?◌, beq_refl, beq_sound}

module _ {ℓ} {A : Type ℓ} ⦃e : Eq A⦄ where
  abbrev pub contains : A → List A → Bool
  contains k [] = false
  contains k (x ∷ xs) = (x =? k) || contains k xs

  abbrev pub IsUnique : List A → Type 0
  IsUnique [] = Unit {0}
  IsUnique (x ∷ xs) = (contains x xs ≡ false) × IsUnique xs

  pub beq_swap : (k x : A) → (x =? k) ≡ false → (k =? x) ≡ false
  beq_swap k x h = elim (Bool-cases (k =? x)) [
    | inl t ↦ cc (h, beq_sound k x t, beq_refl k)
    | inr f ↦ f
  ]

  contains-snoc :
      (x k : A) (xs : List A)
      → contains x xs ≡ false
      → (k =? x) ≡ false
      → contains x (xs ++ k ∷ []) ≡ false
  contains-snoc x k [] h n = ground arith
  contains-snoc x k (y ∷ ys) h n = ground (arith, contains-snoc x k ys)

  contains-cons :
      (k x : A) (xs : List A)
      → contains k (x ∷ xs) ≡ false
      → ((x =? k) ≡ false) × (contains k xs ≡ false)
  contains-cons k x xs h = ground arith

  pub IsUnique-snoc :
      (k : A) (xs : List A) → IsUnique xs → contains k xs ≡ false → IsUnique (xs ++ k ∷ [])
  IsUnique-snoc k [] d h = (refl, tt)
  IsUnique-snoc k (x ∷ xs) d h =
      let (n, r) = contains-cons k x xs h in
      (contains-snoc x k xs d.0 (beq_swap k x n), IsUnique-snoc k xs d.1 r)
