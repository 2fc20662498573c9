-- ===== src/Toolchain/Labels.antt =====
-- The texts of crates/lean-toolchain/src/loader.rs: `from_str` reads exactly what `as_str` writes.
use lean_rs.Common.{
  String, ◌≡◌, ◌↔◌, refl, sym, ap, subst, ◌∙◌, inl, inr, Option, some, List, [], ◌∷◌, All,
  Bool-cases,
}
use lean_rs.Common.Equality.{◌=?◌, string_eq, beq_sound}
use lean_rs.Toolchain.Abi.{
  LeanExportSymbolKind, function, global, LeanExportAbiRepr, lean_object, u8, u16, u32, u64, usize,
  i8, i16, i32, i64, isize, f64, LeanExportOwnership, unowned, owned, LeanExportResultConvention,
  pure, io_result, match_text, kind_arms, repr_arms, ownership_arms, convention_arms, kind_as_str,
  kind_from_str, repr_as_str, repr_from_str, ownership_as_str, ownership_from_str,
  convention_as_str, convention_from_str,
}

module _ {ℓ} {A : Type ℓ} (label : A → String) where
  -- Every arm of the match is the text of its variant.
  match_text_sound :
      (arms : List (String × A)) (value : String) (a : A)
      → All (λ arm. arm.0 ≡ label arm.1) arms
      → match_text arms value ≡ some a
      → value ≡ label a
  unfolding match_text
  match_text_sound [] value a all h = absurd cc
  match_text_sound ((text, b) ∷ arms) value a all h = elim (Bool-cases (value =? text)) [
    | inl same ↦ beq_sound value text same ∙ all.0 ∙ ap label (cc (rw same at h))
    | inr other ↦ match_text_sound arms value a all.1 (rw other at h)
  ]

  -- The text is read as the variant exactly where it is the variant's text.
  abbrev pub Reads : (String → Option A) → Type ℓ
  Reads from_str = (value : String) (a : A) → (from_str value ≡ some a) ↔ (value ≡ label a)

  match_text-Reads :
      (arms : List (String × A))
      → All (λ arm. arm.0 ≡ label arm.1) arms
      → ((a : A) → match_text arms (label a) ≡ some a)
      → Reads (match_text arms)
  match_text-Reads arms all back value a = (
    match_text_sound arms value a all,
    λ e. subst (λ v. match_text arms v ≡ some a) (sym e) (back a),
  )

repr_from_str-as_str : (r : LeanExportAbiRepr) → repr_from_str (repr_as_str r) ≡ some r
unfolding repr_from_str repr_as_str
repr_from_str-as_str lean_object = refl
repr_from_str-as_str u8 = refl
repr_from_str-as_str u16 = refl
repr_from_str-as_str u32 = refl
repr_from_str-as_str u64 = refl
repr_from_str-as_str usize = refl
repr_from_str-as_str i8 = refl
repr_from_str-as_str i16 = refl
repr_from_str-as_str i32 = refl
repr_from_str-as_str i64 = refl
repr_from_str-as_str isize = refl
repr_from_str-as_str f64 = refl

ownership_from_str-as_str :
    (o : LeanExportOwnership) → ownership_from_str (ownership_as_str o) ≡ some o
unfolding ownership_from_str ownership_as_str
ownership_from_str-as_str unowned = refl
ownership_from_str-as_str owned = refl

convention_from_str-as_str :
    (c : LeanExportResultConvention) → convention_from_str (convention_as_str c) ≡ some c
unfolding convention_from_str convention_as_str
convention_from_str-as_str pure = refl
convention_from_str-as_str io_result = refl

kind_from_str-as_str : (k : LeanExportSymbolKind) → kind_from_str (kind_as_str k) ≡ some k
unfolding kind_from_str kind_as_str
kind_from_str-as_str function = refl
kind_from_str-as_str global = refl

-- For each of the four enumerations of an export's ABI, from_str reads a text as a variant exactly where
-- as_str writes the variant as this text: what is written is read back, and nothing else is read.
pub from_str-as_str :
    Reads repr_as_str repr_from_str
    × Reads ownership_as_str ownership_from_str
    × Reads convention_as_str convention_from_str
    × Reads kind_as_str kind_from_str
unfolding repr_from_str ownership_from_str convention_from_str kind_from_str repr_as_str
    ownership_as_str convention_as_str kind_as_str
from_str-as_str = (
  match_text-Reads repr_as_str repr_arms
      (
        refl,
        (refl, (refl, (refl, (refl, (refl, (refl, (refl, (refl, (refl, (refl, (refl, tt))))))))))),
      )
      repr_from_str-as_str,
  match_text-Reads ownership_as_str ownership_arms (refl, (refl, tt)) ownership_from_str-as_str,
  match_text-Reads convention_as_str convention_arms (refl, (refl, tt)) convention_from_str-as_str,
  match_text-Reads kind_as_str kind_arms (refl, (refl, tt)) kind_from_str-as_str,
)
