-- ===== src/Planner/Groups.antt =====
-- The standard collections that crates/lean-rs-worker-parent/src/planning.rs groups with: a `BTreeMap`
-- from keys to vectors as a list in the order of its keys, and the stable `sort_by`.
pub mod Collected
pub mod Sorted
use Prim.Native.Nat.{Ordering}
use lean_rs.Common.{List, [], ◌∷◌, ◌++◌}
use lean_rs.Common.Order.{Ord}

module _ {ℓ κ} {K : Type ℓ} {A : Type κ} ⦃o : Ord K⦄ where
  -- `groups.entry(k).or_default().push(a)`.
  unfoldable pub entry_push : K → A → List (K × List A) → List (K × List A)
  entry_push k a [] = (k, a ∷ []) ∷ []
  entry_push k a ((j, vs) ∷ rest) =
      let behind = entry_push k a rest in
      elim (o.cmp k j) [
        | Ordering.lt ↦ (k, a ∷ []) ∷ (j, vs) ∷ rest
        | Ordering.eq ↦ (j, vs ++ a ∷ []) ∷ rest
        | Ordering.gt ↦ (j, vs) ∷ behind
      ]

  unfoldable pub insert_by : (A → K) → A → List A → List A
  insert_by f a [] = a ∷ []
  insert_by f a (b ∷ bs) =
      let behind = insert_by f a bs in
      elim (o.cmp (f a) (f b)) [
        | Ordering.lt ↦ a ∷ b ∷ bs
        | Ordering.eq ↦ a ∷ b ∷ bs
        | Ordering.gt ↦ b ∷ behind
      ]

  -- `v.sort_by(|l, r| f(l).cmp(&f(r)))`: equal elements keep their order.
  unfoldable pub sort_by : (A → K) → List A → List A
  unfolding insert_by
  sort_by f [] = []
  sort_by f (a ∷ vs) = insert_by f a (sort_by f vs)
