-- ===== src/Protocol/Rows/Numbered.antt =====
-- The numbers that `DataRowEmitter` of crates/lean-rs-worker-protocol/src/protocol.rs gives to the
-- rows of each stream.
use lean_rs.Common.{
  ℕ, suc, ◌+◌, ◌≤◌, ◌≡◌, refl, subst, ◌∙◌, String, true, false, List, [], ◌∷◌, length, inl, inr,
  Bool-cases, sat_inc, sat_add, u64_max, if◌then◌else◌, arith,
}
use lean_rs.Common.Equality.{◌=?◌, string_eq, beq_refl, beq_sound}
use lean_rs.Protocol.Message.{DataRow}
use lean_rs.Protocol.Rows.{DataRowEmitter, new_emitter, sequence_of, advance, next, emit_all}

-- How often a stream occurs.
abbrev pub occurrences : String → List String → ℕ
occurrences s [] = 0
occurrences s (t ∷ ts) = if t =? s then suc (occurrences s ts) else occurrences s ts

-- Each row's number is the number of its stream's rows before it.
abbrev pub IsNumbered : List String → List DataRow → Type 0
IsNumbered before [] = Unit {0}
IsNumbered before (row ∷ rows) =
    (row.sequence ≡ occurrences row.stream before) × IsNumbered (row.stream ∷ before) rows

sequence_of-advance :
    (s : String) (l : List (String × ℕ)) → sequence_of s (advance s l) ≡ sat_inc (sequence_of s l)
unfolding sequence_of advance
sequence_of-advance s [] = rw (beq_refl s) refl
sequence_of-advance s ((t, n) ∷ rest) = elim (Bool-cases (t =? s)) [
  | inl h ↦ rw (h, h) refl
  | inr h ↦ rw (h, h) (sequence_of-advance s rest)
]

sequence_of-advance_other :
    (s t : String) (l : List (String × ℕ))
    → (s =? t) ≡ false
    → sequence_of t (advance s l) ≡ sequence_of t l
unfolding sequence_of advance
sequence_of-advance_other s t [] h = rw h refl
sequence_of-advance_other s t ((u, n) ∷ rest) h = elim (Bool-cases (u =? s)) [
  | inl e ↦ rw (e, elsewhere s t u e h) refl
  | inr e ↦ rw (e, sequence_of-advance_other s t rest h) refl
]
  where
    elsewhere : (s t u : String) → (u =? s) ≡ true → (s =? t) ≡ false → (u =? t) ≡ false
    elsewhere s t u e h = rw (beq_sound u s e) h

-- The map counts the rows so far.
record Tracks (before : List String) (e : DataRowEmitter) : Type 0 where
  sequences : (s : String) → sequence_of s e.sequences ≡ occurrences s before
  count : e.count ≡ length before

occurrences-le-length : (s : String) (ts : List String) → occurrences s ts ≤ length ts
occurrences-le-length s [] = omega arith
occurrences-le-length s (t ∷ ts) = ground (arith, occurrences-le-length s ts)

next-Tracks :
    (before : List String) (s : String) (payload : List ℕ) (e : DataRowEmitter)
    → suc (length before) ≤ u64_max
    → Tracks before e
    → Tracks (s ∷ before) (next s payload e).1
unfolding next sat_add
next-Tracks before s payload e room t = record {
  sequences = λ u. elim (Bool-cases (s =? u)) [
    | inl h ↦ rw h (
        subst (λ (v : String). sequence_of v (advance s e.sequences) ≡ suc (occurrences v before))
          (beq_sound s u h) same)
    | inr h ↦ rw h (sequence_of-advance_other s u e.sequences h ∙ t.sequences u)
  ];
  count = omega (arith, t.count);
}
  where
    same : sequence_of s (advance s e.sequences) ≡ suc (occurrences s before)
    same =
        omega
          (arith, sequence_of-advance s e.sequences, t.sequences s, occurrences-le-length s before)

emitted-IsNumbered :
    (before : List String) (requests : List (String × List ℕ)) (e : DataRowEmitter)
    → length requests + length before ≤ u64_max
    → Tracks before e
    → IsNumbered before (emit_all requests e).0
unfolding emit_all next
emitted-IsNumbered before [] e room t = tt
emitted-IsNumbered before ((s, payload) ∷ requests) e room t = (
  t.sequences s,
  emitted-IsNumbered (s ∷ before) requests (next s payload e).1 (omega arith)
      (next-Tracks before s payload e (omega arith) t),
)

emitted-count :
    (before : List String) (requests : List (String × List ℕ)) (e : DataRowEmitter)
    → length requests + length before ≤ u64_max
    → Tracks before e
    → (emit_all requests e).1.count ≡ length requests + length before
unfolding emit_all next
emitted-count before [] e room t = omega (arith, t.count)
emitted-count before ((s, payload) ∷ requests) e room t = omega (
  arith,
  emitted-count (s ∷ before) requests (next s payload e).1 (omega arith)
      (next-Tracks before s payload e (omega arith) t),
)

-- From a new emitter, however the streams are interleaved: the rows of each stream are numbered from
-- zero without a gap in the order of their emission, and the total is the number of rows. There are
-- fewer rows than a `u64` counts.
pub emit_all-IsNumbered :
    (requests : List (String × List ℕ))
    → length requests ≤ u64_max
    → IsNumbered [] (emit_all requests new_emitter).0
      × ((emit_all requests new_emitter).1.count ≡ length requests)
unfolding sequence_of
emit_all-IsNumbered requests room = (
  emitted-IsNumbered [] requests new_emitter (omega arith) fresh,
  omega (arith, emitted-count [] requests new_emitter (omega arith) fresh),
)
  where
    fresh : Tracks [] new_emitter
    fresh = record { sequences = λ s. refl; count = refl }
