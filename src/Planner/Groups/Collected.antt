-- ===== src/Planner/Groups/Collected.antt =====
-- Pushing into a map of groups: the members stay a rearrangement, the keys ascend, and what holds of
-- each group keeps holding.
use Prim.Native.Nat.{Ordering}
use mathlib.Core.List.{Perm, perm_middle, append_assoc}
use mathlib.Core.List.Perm
use lean_rs.Common.{◌≡◌, sym, subst, inl, inr, List, [], ◌∷◌, ◌++◌, All}
use lean_rs.Common.Order.{Ord, Ordering-cases}
use lean_rs.Planner.Groups.{entry_push}

module _ {ℓ κ} {K : Type ℓ} {A : Type κ} where
  -- The members of all groups, group after group.
  abbrev pub members : List (K × List A) → List A
  members [] = []
  members ((k, vs) ∷ rest) = vs ++ members rest

module _ {ℓ κ} {K : Type ℓ} {A : Type κ} ⦃o : Ord K⦄ where
  abbrev pub IsAscending : List (K × List A) → Type 0
  IsAscending [] = Unit {0}
  IsAscending ((k, vs) ∷ rest) = All (λ g. o.cmp k g.0 ≡ Ordering.lt) rest × IsAscending rest

  pub entry_push-perm :
      (k : K) (a : A) (groups : List (K × List A))
      → Perm (members (entry_push k a groups)) (a ∷ members groups)
  unfolding entry_push
  entry_push-perm k a [] = Perm.rfl
  entry_push-perm k a ((j, vs) ∷ rest) = elim (Ordering-cases (o.cmp k j)) [
    | inl lt ↦ rw (lt, entry_push) Perm.rfl
    | inr (inl eq) ↦
        rw (eq, entry_push, append_assoc vs (a ∷ []) (members rest)) (perm_middle vs (members rest))
    | inr (inr gt) ↦
        rw (gt, entry_push)
          (Perm.trans (Perm.append_left vs (entry_push-perm k a rest))
            (perm_middle vs (members rest)))
  ]

  -- What holds of a new group, and of a group that grows, holds of all.
  pub entry_push-All {μ} :
      (Q : K → List A → Type μ) (k : K) (a : A)
      → Q k (a ∷ [])
      → ((vs : List A) → Q k vs → Q k (vs ++ a ∷ []))
      → (groups : List (K × List A)) → All (λ g. Q g.0 g.1) groups
      → All (λ g. Q g.0 g.1) (entry_push k a groups)
  unfolding entry_push
  entry_push-All Q k a new grown [] h = (new, tt)
  entry_push-All Q k a new grown ((j, vs) ∷ rest) h = elim (Ordering-cases (o.cmp k j)) [
    | inl lt ↦ rw (lt, entry_push) (new, h)
    | inr (inl eq) ↦
        let e = o.cmp_eq k j eq in
        rw (eq, entry_push)
          (subst (λ i. Q i (vs ++ a ∷ [])) e (grown vs (subst (λ i. Q i vs) (sym e) h.0)), h.1)
    | inr (inr gt) ↦ rw (gt, entry_push) (h.0, entry_push-All Q k a new grown rest h.1)
  ]

  keys_above :
      (k j : K) (rest : List (K × List A))
      → o.cmp k j ≡ Ordering.lt
      → All (λ g. o.cmp j g.0 ≡ Ordering.lt) rest
      → All (λ g. o.cmp k g.0 ≡ Ordering.lt) rest
  keys_above k j [] lt h = tt
  keys_above k j (g ∷ rest) lt h = (o.cmp_trans k j g.0 lt h.0, keys_above k j rest lt h.1)

  pub entry_push-IsAscending :
      (k : K) (a : A) (groups : List (K × List A))
      → IsAscending groups
      → IsAscending (entry_push k a groups)
  unfolding entry_push
  entry_push-IsAscending k a [] h = (tt, tt)
  entry_push-IsAscending k a ((j, vs) ∷ rest) h = elim (Ordering-cases (o.cmp k j)) [
    | inl lt ↦ rw (lt, entry_push) ((lt, keys_above k j rest lt h.0), h)
    | inr (inl eq) ↦ rw (eq, entry_push) h
    | inr (inr gt) ↦
        rw (gt, entry_push)
          (
            entry_push-All (λ i us. o.cmp j i ≡ Ordering.lt) k a (o.cmp_flip k j gt) (λ us p. p)
                rest h.0,
            entry_push-IsAscending k a rest h.1,
          )
  ]
