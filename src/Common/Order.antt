-- ===== src/Common/Order.antt =====
-- Total orders as an interface, `#[derive(PartialOrd, Ord)]`: the instances for characters, texts,
-- lists and pairs, and the order that an injective projection pulls back.
use Prim.Native.Nat.{ℕ, Ordering, compare as compare_ℕ}
use Prim.Native.Char.{Char, code}
use Prim.Native.String.{String, [] as nil_text, ◌∷◌ as cons_text, then, compare as compare_text}
use Prim.Native.String.compare as clauses
use mathlib.Core.Path.{◌≡◌, refl, sym, ◌∙◌}
use mathlib.Core.Logic.{◌⊎◌, inl, inr}
use mathlib.Core.List.{List, [], ◌∷◌}
use native.Mathlib.Omega.{arith}
use text.Mathlib.TextPositions.{compare_refl}
use text.Mathlib.TextEquality.{path_by_compare, codes_equal}

pub record Ord {ℓ} (A : Type ℓ) : Type ℓ where
  pub cmp : A → A → Ordering
  pub cmp_refl : (a : A) → cmp a a ≡ Ordering.eq
  pub cmp_eq : (a b : A) → cmp a b ≡ Ordering.eq → a ≡ b
  pub cmp_flip : (a b : A) → cmp a b ≡ Ordering.gt → cmp b a ≡ Ordering.lt
  pub cmp_trans :
      (a b c : A) → cmp a b ≡ Ordering.lt → cmp b c ≡ Ordering.lt → cmp a c ≡ Ordering.lt

pub Ordering-cases : (o : Ordering) → (o ≡ Ordering.lt) ⊎ ((o ≡ Ordering.eq) ⊎ (o ≡ Ordering.gt))
Ordering-cases Ordering.lt = inl refl
Ordering-cases Ordering.eq = inr (inl refl)
Ordering-cases Ordering.gt = inr (inr refl)

then_lt :
    (o p : Ordering)
    → then o p ≡ Ordering.lt
    → (o ≡ Ordering.lt) ⊎ ((o ≡ Ordering.eq) × (p ≡ Ordering.lt))
then_lt Ordering.lt p h = inl refl
then_lt Ordering.eq p h = inr (refl, h)
then_lt Ordering.gt p h = absurd cc

then_gt :
    (o p : Ordering)
    → then o p ≡ Ordering.gt
    → (o ≡ Ordering.gt) ⊎ ((o ≡ Ordering.eq) × (p ≡ Ordering.gt))
then_gt Ordering.lt p h = absurd cc
then_gt Ordering.eq p h = inr (refl, h)
then_gt Ordering.gt p h = inl refl

pub then_eq : (o p : Ordering) → then o p ≡ Ordering.eq → (o ≡ Ordering.eq) × (p ≡ Ordering.eq)
then_eq Ordering.lt p h = absurd cc
then_eq Ordering.eq p h = (refl, h)
then_eq Ordering.gt p h = absurd cc

-- A first component decides, and where it is equal the rest does.
module _ {ℓ} {A : Type ℓ} (o : Ord A) where
  pub lex_trans :
      (a b c : A) (p q r : Ordering)
      → (p ≡ Ordering.lt → q ≡ Ordering.lt → r ≡ Ordering.lt)
      → then (o.cmp a b) p ≡ Ordering.lt
      → then (o.cmp b c) q ≡ Ordering.lt
      → then (o.cmp a c) r ≡ Ordering.lt
  lex_trans a b c p q r rest h k = elim (then_lt (o.cmp a b) p h) [
    | inl x ↦ elim (then_lt (o.cmp b c) q k) [
      | inl y ↦ rw (o.cmp_trans a b c x y) refl
      | inr y ↦ rw (sym (o.cmp_eq b c y.0), x) refl
    ]
    | inr x ↦ elim (then_lt (o.cmp b c) q k) [
      | inl y ↦ rw (o.cmp_eq a b x.0, y) refl
      | inr y ↦ rw (o.cmp_eq a b x.0, y.0, rest x.1 y.1) refl
    ]
  ]

  pub lex_flip :
      (a b : A) (p q : Ordering)
      → (p ≡ Ordering.gt → q ≡ Ordering.lt)
      → then (o.cmp a b) p ≡ Ordering.gt
      → then (o.cmp b a) q ≡ Ordering.lt
  lex_flip a b p q rest h = elim (then_gt (o.cmp a b) p h) [
    | inl x ↦ rw (o.cmp_flip a b x) refl
    | inr x ↦ rw (o.cmp_eq a b x.0, o.cmp_refl b, rest x.1) refl
  ]

pub compare_ℕ_flip : (m n : ℕ) → compare_ℕ m n ≡ Ordering.gt → compare_ℕ n m ≡ Ordering.lt
compare_ℕ_flip m n h = ground arith

pub compare_ℕ_trans :
    (m n k : ℕ)
    → compare_ℕ m n ≡ Ordering.lt
    → compare_ℕ n k ≡ Ordering.lt
    → compare_ℕ m k ≡ Ordering.lt
compare_ℕ_trans m n k h i = ground arith

pub compare_ℕ_refl : (m : ℕ) → compare_ℕ m m ≡ Ordering.eq
compare_ℕ_refl m = ground arith

pub compare_ℕ_eq : (m n : ℕ) → compare_ℕ m n ≡ Ordering.eq → m ≡ n
compare_ℕ_eq m n h = ground arith

abbrev pub nat_ord : Ord ℕ
nat_ord = record {
  cmp = compare_ℕ;
  cmp_refl = compare_ℕ_refl;
  cmp_eq = compare_ℕ_eq;
  cmp_flip = compare_ℕ_flip;
  cmp_trans = compare_ℕ_trans;
}

instance abbrev char_ord : Ord Char
char_ord = record {
  cmp = λ c d. compare_ℕ (code c) (code d);
  cmp_refl = λ c. compare_ℕ_refl (code c);
  cmp_eq = codes_equal;
  cmp_flip = λ c d. compare_ℕ_flip (code c) (code d);
  cmp_trans = λ c d e. compare_ℕ_trans (code c) (code d) (code e);
}

pub compare_flip : (s t : String) → compare_text s t ≡ Ordering.gt → compare_text t s ≡ Ordering.lt
compare_flip nil_text nil_text h = absurd (cc (h, clauses.nil-nil))
compare_flip nil_text (cons_text d t) h = absurd (cc (h, clauses.nil-cons d t))
compare_flip (cons_text c s) nil_text h = clauses.nil-cons c s
compare_flip (cons_text c s) (cons_text d t) h =
    clauses.cons-cons d c t s
    ∙ lex_flip char_ord c d (compare_text s t) (compare_text t s) (compare_flip s t)
        (sym (clauses.cons-cons c d s t) ∙ h)

pub compare_trans :
    (s t u : String)
    → compare_text s t ≡ Ordering.lt
    → compare_text t u ≡ Ordering.lt
    → compare_text s u ≡ Ordering.lt
compare_trans nil_text nil_text u h k = k
compare_trans nil_text (cons_text d t) nil_text h k = absurd (cc (k, clauses.cons-nil d t))
compare_trans nil_text (cons_text d t) (cons_text e u) h k = clauses.nil-cons e u
compare_trans (cons_text c s) nil_text u h k = absurd (cc (h, clauses.cons-nil c s))
compare_trans (cons_text c s) (cons_text d t) nil_text h k = absurd (cc (k, clauses.cons-nil d t))
compare_trans (cons_text c s) (cons_text d t) (cons_text e u) h k =
    clauses.cons-cons c e s u
    ∙ lex_trans char_ord c d e (compare_text s t) (compare_text t u) (compare_text s u)
        (compare_trans s t u) (sym (clauses.cons-cons c d s t) ∙ h)
        (sym (clauses.cons-cons d e t u) ∙ k)

instance abbrev pub string_ord : Ord String
string_ord = record {
  cmp = compare_text;
  cmp_refl = compare_refl;
  cmp_eq = path_by_compare;
  cmp_flip = compare_flip;
  cmp_trans = compare_trans;
}

module _ {ℓ} {A : Type ℓ} ⦃o : Ord A⦄ where
  abbrev list_cmp : List A → List A → Ordering
  list_cmp [] [] = Ordering.eq
  list_cmp [] (y ∷ ys) = Ordering.lt
  list_cmp (x ∷ xs) [] = Ordering.gt
  list_cmp (x ∷ xs) (y ∷ ys) = then (o.cmp x y) (list_cmp xs ys)

  pub list_cmp_refl : (a : List A) → list_cmp a a ≡ Ordering.eq
  list_cmp_refl [] = refl
  list_cmp_refl (x ∷ xs) = rw (o.cmp_refl x) (list_cmp_refl xs)

  pub list_cmp_eq : (a b : List A) → list_cmp a b ≡ Ordering.eq → a ≡ b
  list_cmp_eq [] [] h = refl
  list_cmp_eq [] (y ∷ ys) h = absurd cc
  list_cmp_eq (x ∷ xs) [] h = absurd cc
  list_cmp_eq (x ∷ xs) (y ∷ ys) h =
      let (p, q) = then_eq (o.cmp x y) (list_cmp xs ys) h in
      cc (o.cmp_eq x y p, list_cmp_eq xs ys q)

  pub list_cmp_flip : (a b : List A) → list_cmp a b ≡ Ordering.gt → list_cmp b a ≡ Ordering.lt
  list_cmp_flip [] [] h = absurd cc
  list_cmp_flip [] (y ∷ ys) h = absurd cc
  list_cmp_flip (x ∷ xs) [] h = refl
  list_cmp_flip (x ∷ xs) (y ∷ ys) h =
      lex_flip o x y (list_cmp xs ys) (list_cmp ys xs) (list_cmp_flip xs ys) h

  pub list_cmp_trans :
      (a b c : List A)
      → list_cmp a b ≡ Ordering.lt
      → list_cmp b c ≡ Ordering.lt
      → list_cmp a c ≡ Ordering.lt
  list_cmp_trans [] [] c h k = k
  list_cmp_trans [] (y ∷ ys) [] h k = absurd cc
  list_cmp_trans [] (y ∷ ys) (z ∷ zs) h k = refl
  list_cmp_trans (x ∷ xs) [] c h k = absurd cc
  list_cmp_trans (x ∷ xs) (y ∷ ys) [] h k = absurd cc
  list_cmp_trans (x ∷ xs) (y ∷ ys) (z ∷ zs) h k =
      lex_trans o x y z (list_cmp xs ys) (list_cmp ys zs) (list_cmp xs zs) (list_cmp_trans xs ys zs)
        h k

  instance abbrev pub list_ord : Ord (List A)
  list_ord = record {
    cmp = list_cmp;
    cmp_refl = list_cmp_refl;
    cmp_eq = list_cmp_eq;
    cmp_flip = list_cmp_flip;
    cmp_trans = list_cmp_trans;
  }

pub pair_cmp_eq {ℓ κ} :
    {A : Type ℓ} {B : Type κ} (o : Ord A) (p : Ord B) (a b : A × B)
    → then (o.cmp a.0 b.0) (p.cmp a.1 b.1) ≡ Ordering.eq
    → a ≡ b
pair_cmp_eq o p a b h =
    let (x, y) = then_eq (o.cmp a.0 b.0) (p.cmp a.1 b.1) h in
    cc (o.cmp_eq a.0 b.0 x, p.cmp_eq a.1 b.1 y)

abbrev pub pair_ord {ℓ κ} : {A : Type ℓ} {B : Type κ} → Ord A → Ord B → Ord (A × B)
pair_ord o p = record {
  cmp = λ a b. then (o.cmp a.0 b.0) (p.cmp a.1 b.1);
  cmp_refl = λ a. rw (o.cmp_refl a.0) (p.cmp_refl a.1);
  cmp_eq = pair_cmp_eq o p;
  cmp_flip = λ a b h. lex_flip o a.0 b.0 (p.cmp a.1 b.1) (p.cmp b.1 a.1) (p.cmp_flip a.1 b.1) h;
  cmp_trans = λ a b c h k.
      lex_trans o a.0 b.0 c.0 (p.cmp a.1 b.1) (p.cmp b.1 c.1) (p.cmp a.1 c.1)
        (p.cmp_trans a.1 b.1 c.1) h k;
}

abbrev pub pulled_ord {ℓ κ} :
    {A : Type ℓ} {B : Type κ} (f : A → B) → ((a b : A) → f a ≡ f b → a ≡ b) → Ord B → Ord A
pulled_ord f inj o = record {
  cmp = λ a b. o.cmp (f a) (f b);
  cmp_refl = λ a. o.cmp_refl (f a);
  cmp_eq = λ a b h. inj a b (o.cmp_eq (f a) (f b) h);
  cmp_flip = λ a b h. o.cmp_flip (f a) (f b) h;
  cmp_trans = λ a b c h k. o.cmp_trans (f a) (f b) (f c) h k;
}
