-- ===== src/WorkerChild/Sessions/Spelled.antt =====
-- The keys of the parent and the texts that the child knows them by: the list of
-- crates/lean-rs-worker-parent/src/supervisor.rs against the keys of
-- crates/lean-rs-worker-child/src/child.rs.
use lean_rs.Common.{
  ℕ, zero, suc, ◌-◌, ◌≡◌, refl, sym, ◌∙◌, ap, inl, inr, List, [], ◌∷◌, ◌++◌, map, length, All,
  Bool-cases,
}
use mathlib.Core.List.{map-append}
use lean_rs.Common.Equality.{Eq, ◌=?◌}
use lean_rs.Supervisor.Reuse.{holds, remove_key, drop_front, touch_key}

module _ {A B : Type 0} ⦃d : Eq A⦄ ⦃e : Eq B⦄ (spell : A → B) where
  -- The texts tell `k` and the listed keys apart exactly where these differ.
  abbrev pub TellsApart : A → List A → Type 0
  TellsApart k = All (λ (x : A). (spell x =? spell k) ≡ (x =? k))

  pub holds-map :
      (k : A) (xs : List A) → TellsApart k xs → holds (spell k) (map spell xs) ≡ holds k xs
  unfolding holds
  holds-map k [] t = refl
  holds-map k (x ∷ xs) t = rw (t.0, holds-map k xs t.1) refl

  remove_key-map :
      (k : A) (xs : List A)
      → TellsApart k xs
      → remove_key (spell k) (map spell xs) ≡ map spell (remove_key k xs)
  unfolding remove_key
  remove_key-map k [] t = refl
  remove_key-map k (x ∷ xs) t = elim (Bool-cases (x =? k)) [
    | inl y ↦ rw (t.0, y) refl
    | inr n ↦ rw (t.0, n) (ap (◌∷◌ (spell x)) (remove_key-map k xs t.1))
  ]

  drop_front-map : (n : ℕ) (xs : List A) → drop_front n (map spell xs) ≡ map spell (drop_front n xs)
  unfolding drop_front
  drop_front-map zero xs = refl
  drop_front-map (suc n) [] = refl
  drop_front-map (suc n) (x ∷ xs) = drop_front-map n xs

  length-map : (xs : List A) → length (map spell xs) ≡ length xs
  length-map [] = refl
  length-map (x ∷ xs) = ap suc (length-map xs)

  pub touch_key-map :
      (capacity : ℕ) (k : A) (xs : List A)
      → TellsApart k xs
      → touch_key capacity (spell k) (map spell xs) ≡ map spell (touch_key capacity k xs)
  unfolding touch_key
  touch_key-map capacity k xs t = elim (Bool-cases (holds k xs)) [
    | inl h ↦
        rw (holds-map k xs t, h)
          (ap (λ (l : List B). l ++ spell k ∷ []) (remove_key-map k xs t)
            ∙ sym (map-append spell (remove_key k xs) (k ∷ [])))
    | inr h ↦
        rw (holds-map k xs t, h, sym (map-append spell xs (k ∷ [])), length-map (xs ++ k ∷ []))
          (drop_front-map (length (xs ++ k ∷ []) - capacity) (xs ++ k ∷ []))
  ]
