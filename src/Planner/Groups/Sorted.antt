-- ===== src/Planner/Groups/Sorted.antt =====
-- The stable sort: it rearranges, its result is in order, and the elements of one key keep theirs.
use Prim.Native.Nat.{Ordering}
use mathlib.Core.List.{Perm}
use mathlib.Core.List.Perm
use text.Mathlib.Text.{is_eq}
use lean_rs.Common.{
  ◌≤◌, length, ◌≡◌, refl, sym, ap, ◌∙◌, subst, ◌⊎◌, inl, inr, true, false, List, [], ◌∷◌, All,
  filter, if◌then◌else◌, Bool-cases, arith,
}
use lean_rs.Common.Order.{Ord, Ordering-cases}
use lean_rs.Planner.Groups.{insert_by, sort_by}

is_eq-true : (o : Ordering) → is_eq o ≡ true → o ≡ Ordering.eq
is_eq-true Ordering.lt h = absurd cc
is_eq-true Ordering.eq h = refl
is_eq-true Ordering.gt h = absurd cc

module _ {ℓ κ} {K : Type ℓ} {A : Type κ} ⦃o : Ord K⦄ (f : A → K) where
  -- Not after: the key is smaller or the same.
  abbrev pub Le : A → A → Type ℓ
  Le a b = (o.cmp (f a) (f b) ≡ Ordering.lt) ⊎ (f a ≡ f b)

  abbrev pub IsSorted : List A → Type ℓ
  IsSorted [] = Unit {ℓ}
  IsSorted (a ∷ rest) = All (Le a) rest × IsSorted rest

  Le-trans : (a b c : A) → Le a b → Le b c → Le a c
  Le-trans a b c (inl x) (inl y) = inl (o.cmp_trans (f a) (f b) (f c) x y)
  Le-trans a b c (inl x) (inr y) = inl (subst (λ k. o.cmp (f a) k ≡ Ordering.lt) y x)
  Le-trans a b c (inr x) h = subst (λ k. (o.cmp k (f c) ≡ Ordering.lt) ⊎ (k ≡ f c)) (sym x) h

  Le-All : (a b : A) (rest : List A) → Le a b → All (Le b) rest → All (Le a) rest
  Le-All a b [] h all = tt
  Le-All a b (c ∷ rest) h all = (Le-trans a b c h all.0, Le-All a b rest h all.1)

  insert_by-All {μ} :
      (P : A → Type μ) (a : A) (rest : List A) → P a → All P rest → All P (insert_by f a rest)
  unfolding insert_by
  insert_by-All P a [] p all = (p, tt)
  insert_by-All P a (b ∷ rest) p all = elim (Ordering-cases (o.cmp (f a) (f b))) [
    | inl lt ↦ rw (lt, insert_by) (p, all)
    | inr (inl eq) ↦ rw (eq, insert_by) (p, all)
    | inr (inr gt) ↦ rw (gt, insert_by) (all.0, insert_by-All P a rest p all.1)
  ]

  insert_by-IsSorted : (a : A) (rest : List A) → IsSorted rest → IsSorted (insert_by f a rest)
  unfolding insert_by
  insert_by-IsSorted a [] h = (tt, tt)
  insert_by-IsSorted a (b ∷ rest) h = elim (Ordering-cases (o.cmp (f a) (f b))) [
    | inl lt ↦ rw (lt, insert_by) ((inl lt, Le-All a b rest (inl lt) h.0), h)
    | inr (inl eq) ↦
        let same = inr (o.cmp_eq (f a) (f b) eq) in
        rw (eq, insert_by) ((same, Le-All a b rest same h.0), h)
    | inr (inr gt) ↦
        rw (gt, insert_by)
          (
            insert_by-All (Le b) a rest (inl (o.cmp_flip (f a) (f b) gt)) h.0,
            insert_by-IsSorted a rest h.1,
          )
  ]

  insert_by-perm : (a : A) (rest : List A) → Perm (insert_by f a rest) (a ∷ rest)
  unfolding insert_by
  insert_by-perm a [] = Perm.rfl
  insert_by-perm a (b ∷ rest) = elim (Ordering-cases (o.cmp (f a) (f b))) [
    | inl lt ↦ rw (lt, insert_by) Perm.rfl
    | inr (inl eq) ↦ rw (eq, insert_by) Perm.rfl
    | inr (inr gt) ↦
        rw (gt, insert_by) (Perm.trans (Perm.cons b (insert_by-perm a rest)) (Perm.swap a b rest))
  ]

  pub sort_by-perm : (l : List A) → Perm (sort_by f l) l
  unfolding sort_by
  sort_by-perm [] = Perm.rfl
  sort_by-perm (a ∷ rest) =
      Perm.trans (insert_by-perm a (sort_by f rest)) (Perm.cons a (sort_by-perm rest))

  pub sort_by-IsSorted : (l : List A) → IsSorted (sort_by f l)
  unfolding sort_by
  sort_by-IsSorted [] = tt
  sort_by-IsSorted (a ∷ rest) = insert_by-IsSorted a (sort_by f rest) (sort_by-IsSorted rest)

  pub sort_by-All {μ} : (P : A → Type μ) (l : List A) → All P l → All P (sort_by f l)
  unfolding sort_by
  sort_by-All P [] all = tt
  sort_by-All P (a ∷ rest) all = insert_by-All P a (sort_by f rest) all.0 (sort_by-All P rest all.1)

  insert_by-inhabited : (a : A) (rest : List A) → 1 ≤ length (insert_by f a rest)
  unfolding insert_by
  insert_by-inhabited a [] = omega arith
  insert_by-inhabited a (b ∷ rest) = elim (Ordering-cases (o.cmp (f a) (f b))) [
    | inl lt ↦ rw (lt, insert_by) (omega arith)
    | inr (inl eq) ↦ rw (eq, insert_by) (omega arith)
    | inr (inr gt) ↦ rw (gt, insert_by) (omega arith)
  ]

  pub sort_by-inhabited : (l : List A) → 1 ≤ length l → 1 ≤ length (sort_by f l)
  unfolding sort_by
  sort_by-inhabited [] h = h
  sort_by-inhabited (a ∷ rest) h = insert_by-inhabited a (sort_by f rest)

  -- The elements whose key is `k`.
  abbrev pub of_key : K → List A → List A
  of_key k l = filter (λ a. is_eq (o.cmp (f a) k)) l

  apart :
      (a b : A) (k : K)
      → o.cmp (f a) (f b) ≡ Ordering.gt
      → is_eq (o.cmp (f a) k) ≡ true
      → is_eq (o.cmp (f b) k) ≡ false
  apart a b k gt p = elim (Bool-cases (is_eq (o.cmp (f b) k))) [
    | inr other ↦ other
    | inl q ↦ absurd (
        cc (
          gt,
          o.cmp_refl (f a),
          o.cmp_eq (f a) k (is_eq-true (o.cmp (f a) k) p),
          o.cmp_eq (f b) k (is_eq-true (o.cmp (f b) k) q),
        ))
  ]

  insert_by-of_key :
      (k : K) (a : A) (rest : List A) → of_key k (insert_by f a rest) ≡ of_key k (a ∷ rest)
  unfolding insert_by
  insert_by-of_key k a [] = refl
  insert_by-of_key k a (b ∷ rest) = elim (Ordering-cases (o.cmp (f a) (f b))) [
    | inl lt ↦ rw (lt, insert_by) refl
    | inr (inl eq) ↦ rw (eq, insert_by) refl
    | inr (inr gt) ↦ elim (Bool-cases (is_eq (o.cmp (f a) k))) [
      | inl same ↦ simp (gt, insert_by, same, apart a b k gt same, insert_by-of_key k a rest)
      | inr other ↦ simp (gt, insert_by, other, insert_by-of_key k a rest)
    ]
  ]

  -- The sort is stable.
  pub sort_by-of_key : (k : K) (l : List A) → of_key k (sort_by f l) ≡ of_key k l
  unfolding sort_by
  sort_by-of_key k [] = refl
  sort_by-of_key k (a ∷ rest) =
      insert_by-of_key k a (sort_by f rest)
      ∙ ap (λ l. let r = l in if is_eq (o.cmp (f a) k) then a ∷ r else r) (sort_by-of_key k rest)
