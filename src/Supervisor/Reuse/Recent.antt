-- ===== src/Supervisor/Reuse/Recent.antt =====
-- The list of remembered sessions after a use: `note_open_session_key` of
-- crates/lean-rs-worker-parent/src/supervisor.rs.
use lean_rs.Common.{
  ℕ, zero, suc, ◌+◌, ◌-◌, ◌≤◌, ◌≡◌, refl, subst, inl, inr, ◌∙◌, ap, true, false, some, List, [],
  ◌∷◌, ◌++◌, length, length-append, arith, Bool-cases, if_rule,
}
use lean_rs.Common.Equality.{Eq, ◌=?◌, beq_refl, beq_sound}
use lean_rs.Supervisor.Session.{LeanWorkerSessionConfig, session_config_eq}
use lean_rs.Supervisor.Worker.{LeanWorker}
use lean_rs.Supervisor.Reuse.{
  reuse_hint_capacity, holds, remove_key, drop_front, touch_key, note_open_session_key, last_key,
}

abbrev Keys : Type 0
Keys = List LeanWorkerSessionConfig

-- No key is held twice.
abbrev pub IsDistinct : {A : Type 0} ⦃e : Eq A⦄ → List A → Type 0
IsDistinct [] = Unit {0}
IsDistinct (x ∷ xs) = (holds x xs ≡ false) × IsDistinct xs

pub last_key-snoc : (xs : Keys) (k : LeanWorkerSessionConfig) → last_key (xs ++ k ∷ []) ≡ some k
unfolding last_key
last_key-snoc [] k = refl
last_key-snoc (x ∷ []) k = refl
last_key-snoc (x ∷ y ∷ ys) k = last_key-snoc (y ∷ ys) k

pub length-remove_key :
    (k : LeanWorkerSessionConfig) (xs : Keys)
    → holds k xs ≡ true
    → length (remove_key k xs) + 1 ≡ length xs
unfolding holds remove_key
length-remove_key k [] h = cc
length-remove_key k (x ∷ xs) h = ground (arith, length-remove_key k xs)

pub holds-snoc :
    (x k : LeanWorkerSessionConfig) (xs : Keys)
    → holds x xs ≡ false
    → (k =? x) ≡ false
    → holds x (xs ++ k ∷ []) ≡ false
unfolding holds
holds-snoc x k [] h e = ground arith
holds-snoc x k (y ∷ ys) h e = ground (arith, holds-snoc x k ys)

-- A key that is not held is neither the first nor held behind it.
pub holds-cons :
    (k x : LeanWorkerSessionConfig) (xs : Keys)
    → holds k (x ∷ xs) ≡ false
    → ((x =? k) ≡ false) × (holds k xs ≡ false)
unfolding holds
holds-cons k x xs h = ground arith

pub holds-miss :
    (k x : LeanWorkerSessionConfig) (xs : Keys)
    → (x =? k) ≡ false
    → holds k xs ≡ false
    → holds k (x ∷ xs) ≡ false
unfolding holds
holds-miss k x xs e h = ground arith

beq-swap : (k x : LeanWorkerSessionConfig) → (x =? k) ≡ false → (k =? x) ≡ false
beq-swap k x e = elim (Bool-cases (k =? x)) [
  | inl t ↦ cc (e, beq_sound k x t, beq_refl k)
  | inr f ↦ f
]

pub IsDistinct-snoc :
    (k : LeanWorkerSessionConfig) (xs : Keys)
    → IsDistinct xs
    → holds k xs ≡ false
    → IsDistinct (xs ++ k ∷ [])
unfolding holds
IsDistinct-snoc k [] d h = (refl, tt)
IsDistinct-snoc k (x ∷ xs) d h =
    let (e, r) = holds-cons k x xs h in
    (holds-snoc x k xs d.0 (beq-swap k x e), IsDistinct-snoc k xs d.1 r)

holds-remove_key :
    (x k : LeanWorkerSessionConfig) (xs : Keys)
    → holds x xs ≡ false
    → holds x (remove_key k xs) ≡ false
unfolding holds remove_key
holds-remove_key x k [] h = refl
holds-remove_key x k (y ∷ ys) h =
    let (e, r) = holds-cons x y ys h in
    if_rule (λ (l : Keys). holds x l ≡ false) (y =? k) r
      (holds-miss x y (remove_key k ys) e (holds-remove_key x k ys r))

removed-key :
    (k : LeanWorkerSessionConfig) (xs : Keys) → IsDistinct xs → holds k (remove_key k xs) ≡ false
unfolding holds remove_key
removed-key k [] d = refl
removed-key k (x ∷ xs) d = elim (Bool-cases (x =? k)) [
  | inl e ↦ rw e (subst (λ (y : LeanWorkerSessionConfig). holds y xs ≡ false) (beq_sound x k e) d.0)
  | inr e ↦ rw e (holds-miss k x (remove_key k xs) e (removed-key k xs d.1))
]

IsDistinct-remove_key :
    (k : LeanWorkerSessionConfig) (xs : Keys) → IsDistinct xs → IsDistinct (remove_key k xs)
unfolding remove_key
IsDistinct-remove_key k [] d = tt
IsDistinct-remove_key k (x ∷ xs) d =
    if_rule IsDistinct (x =? k) d.1 (holds-remove_key x k xs d.0, IsDistinct-remove_key k xs d.1)

IsDistinct-drop_front : (n : ℕ) (xs : Keys) → IsDistinct xs → IsDistinct (drop_front n xs)
unfolding drop_front
IsDistinct-drop_front zero xs d = d
IsDistinct-drop_front (suc n) [] d = tt
IsDistinct-drop_front (suc n) (x ∷ xs) d = IsDistinct-drop_front n xs d.1

pub length-drop_front : (n : ℕ) (xs : Keys) → length (drop_front n xs) ≡ length xs - n
unfolding drop_front
length-drop_front zero xs = omega arith
length-drop_front (suc n) [] = omega arith
length-drop_front (suc n) (x ∷ xs) = omega (arith, length-drop_front n xs)

pub drop_front-snoc :
    {A : Type 0} (n : ℕ) (xs : List A) (k : A)
    → n ≤ length xs
    → drop_front n (xs ++ k ∷ []) ≡ drop_front n xs ++ k ∷ []
unfolding drop_front
drop_front-snoc zero xs k h = refl
drop_front-snoc (suc n) [] k h = absurd (omega arith)
drop_front-snoc (suc n) (x ∷ xs) k h = drop_front-snoc n xs k (omega arith)

-- What the list is after a use of `k`.
pub record IsRecent (capacity : ℕ) (k : LeanWorkerSessionConfig)
    (keys : List LeanWorkerSessionConfig) : Type 0 where
  pub bounded : length keys ≤ capacity
  pub distinct : IsDistinct keys
  pub last : last_key keys ≡ some k

touch_key-IsRecent :
    (capacity : ℕ) (k : LeanWorkerSessionConfig) (keys : Keys)
    → 1 ≤ capacity
    → length keys ≤ capacity
    → IsDistinct keys
    → IsRecent capacity k (touch_key capacity k keys)
unfolding touch_key
touch_key-IsRecent capacity k keys pos h d = elim (Bool-cases (holds k keys)) [
  | inl e ↦ rw e (record {
    bounded = omega (arith, length-append (remove_key k keys) (k ∷ []), length-remove_key k keys e);
    distinct = IsDistinct-snoc k _ (IsDistinct-remove_key k keys d) (removed-key k keys d);
    last = last_key-snoc _ k;
  })
  | inr e ↦ rw e (record {
    bounded = omega (
      arith,
      length-append keys (k ∷ []),
      length-drop_front (length (keys ++ k ∷ []) - capacity) (keys ++ k ∷ []),
    );
    distinct = IsDistinct-drop_front _ _ (IsDistinct-snoc k keys d e);
    last =
        ap last_key (drop_front-snoc _ keys k (omega (arith, length-append keys (k ∷ []))))
        ∙ last_key-snoc _ k;
  })
]

-- Noting a session keeps the remembered keys within the capacity and free of repetitions, and puts
-- the noted key at the most recently used end, where it was held already and where it is new. The
-- list is within the capacity and free of repetitions before.
pub note_open_session_key-IsRecent :
    (k : LeanWorkerSessionConfig) (w : LeanWorker)
    → length w.open_session_keys ≤ reuse_hint_capacity w.config
    → IsDistinct w.open_session_keys
    → IsRecent (reuse_hint_capacity w.config) k (note_open_session_key k w).open_session_keys
unfolding note_open_session_key
note_open_session_key-IsRecent k w h d = touch_key-IsRecent _ k w.open_session_keys (positive w) h d
  where
    positive : (v : LeanWorker) → 1 ≤ reuse_hint_capacity v.config
    positive v = omega arith
