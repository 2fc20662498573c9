-- ===== src/Capability/Signatures.antt =====
-- crates/lean-rs-worker-parent/src/capability.rs: the signatures that a builder trusts.
use lean_rs.Common.{◌≡◌, refl, ap, inl, inr, List, [], ◌∷◌, ◌++◌, Bool-cases}
use lean_rs.Common.Equality.{string_eq}
use lean_rs.Common.Unique.{contains, IsUnique, IsUnique-snoc}
use lean_rs.Toolchain.Abi.{LeanExportSignature}
use lean_rs.Capability.Builder.{LeanWorkerCapabilityBuilder, symbols, add_worker_export_signature}

symbols-snoc :
    (l : List LeanExportSignature) (s : LeanExportSignature)
    → symbols (l ++ s ∷ []) ≡ symbols l ++ s.symbol ∷ []
symbols-snoc [] s = refl
symbols-snoc (t ∷ l) s = ap (◌∷◌ t.symbol) (symbols-snoc l s)

module _ {Built : Type 0} where
  -- Trusting a further export keeps the trusted symbols distinct, whether its symbol is new or trusted
  -- already.
  pub add_worker_export_signature-IsUnique :
      (s : LeanExportSignature) (b : LeanWorkerCapabilityBuilder Built)
      → IsUnique (symbols b.worker_export_signatures)
      → IsUnique (symbols (add_worker_export_signature s b).worker_export_signatures)
  unfolding add_worker_export_signature
  add_worker_export_signature-IsUnique s b u =
      let l = b.worker_export_signatures in
      elim (Bool-cases (contains s.symbol (symbols l))) [
        | inl known ↦ rw known u
        | inr fresh ↦ rw (fresh, symbols-snoc l s) (IsUnique-snoc s.symbol (symbols l) u fresh)
      ]
