-- ===== src/Protocol/Rows.antt =====
-- crates/lean-rs-worker-protocol/src/protocol.rs: `DataRowEmitter`, which numbers the rows of each
-- stream. Its ordered map is an association list.
pub mod Numbered
use lean_rs.Common.{ℕ, String, Bool, true, false, List, [], ◌∷◌, sat_inc, if◌then◌else◌}
use lean_rs.Common.Equality.{◌=?◌, string_eq}
use lean_rs.Protocol.Message.{DataRow}

pub record DataRowEmitter : Type 0 where
  pub sequences : List (String × ℕ)
  pub count : ℕ

-- `DataRowEmitter::default()`.
abbrev pub new_emitter : DataRowEmitter
new_emitter = record { sequences = []; count = 0 }

-- `sequences.get(stream)`, zero for a stream that has no entry.
unfoldable pub sequence_of : String → List (String × ℕ) → ℕ
sequence_of s [] = 0
sequence_of s ((t, n) ∷ rest) = if t =? s then n else sequence_of s rest

-- `entry(stream).or_insert(0)`, then advanced by one.
unfoldable pub advance : String → List (String × ℕ) → List (String × ℕ)
advance s [] = (s, sat_inc 0) ∷ []
advance s ((t, n) ∷ rest) = if t =? s then (t, sat_inc n) ∷ rest else (t, n) ∷ advance s rest

-- `DataRowEmitter::next`.
unfoldable pub next : String → List ℕ → DataRowEmitter → DataRow × DataRowEmitter
next s payload e = (
  record { stream = s; sequence = sequence_of s e.sequences; payload = payload },
  record { sequences = advance s e.sequences; count = sat_inc e.count },
)

-- One row after another.
unfoldable pub emit_all : List (String × List ℕ) → DataRowEmitter → List DataRow × DataRowEmitter
emit_all [] e = ([], e)
emit_all ((s, payload) ∷ requests) e =
    let (row, e') = next s payload e in let (rows, e'') = emit_all requests e' in (row ∷ rows, e'')
