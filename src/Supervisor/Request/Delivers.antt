-- ===== src/Supervisor/Request/Delivers.antt =====
-- What a wait for an answer has delivered: the rows of `read_response_with_events` of
-- crates/lean-rs-worker-parent/src/supervisor.rs, in the sink and in the counters.
use lean_rs.Common.{ℕ, ◌≡◌, refl, ◌∙◌, ap, sym, List, [], ◌∷◌, ◌++◌, sat_inc, sat_add, length}
use mathlib.Core.List.{append_assoc, append-nil}
use lean_rs.Protocol.Message.{Message, data_row, Response, DataRow}
use lean_rs.Supervisor.Types.{LeanWorkerError, Result, ok, err}
use lean_rs.Supervisor.Stats.{LeanWorkerStats, stream_counts}
use lean_rs.Supervisor.Worker.{LeanWorker}
use lean_rs.Supervisor.Reader.{RequestReaderEvent, message, terminal, read_error}
use lean_rs.Supervisor.Sinks.{Report, progress, row, diagnosed}
use lean_rs.Supervisor.Request.{
  event, timed_out, disconnected, Trace, round, hangs_up, ReadEnv, ReadState, Outcome, note_reports,
  count_row,
}

-- The rows among the reports.
abbrev pub rows_taken : List Report → List DataRow
rows_taken [] = []
rows_taken (row r ∷ rs) = r ∷ rows_taken rs
rows_taken (progress t e ∷ rs) = rows_taken rs
rows_taken (diagnosed d ∷ rs) = rows_taken rs

abbrev pub row_first : Message → List DataRow → List DataRow
row_first (data_row r) rest = r ∷ rest
row_first m rest = rest

-- A terminal event ends what its request has sent.
abbrev pub rows_from : RequestReaderEvent → List DataRow → List DataRow
rows_from (message g i m b) rest = row_first m rest
rows_from (terminal g i m b) rest = []
rows_from (read_error g i e eof b) rest = []

-- The rows that the child sends before the request's terminal event.
abbrev pub rows_sent : Trace → List DataRow
rows_sent (hangs_up r) = []
rows_sent (round r (event e) rest) = rows_from e (rows_sent rest)
rows_sent (round r timed_out rest) = rows_sent rest
rows_sent (round r disconnected rest) = rows_sent rest

abbrev pub IsPrefix : List DataRow → List DataRow → Type 0
IsPrefix [] ys = Unit {0}
IsPrefix (x ∷ xs) [] = ⊥
IsPrefix (x ∷ xs) (y ∷ ys) = (x ≡ y) × IsPrefix xs ys

-- Counting rows, and their bytes, one by one in `u64`.
abbrev pub rows_counted : ℕ → List DataRow → ℕ
rows_counted n [] = n
rows_counted n (r ∷ rs) = rows_counted (sat_inc n) rs

abbrev pub bytes_counted : ℕ → List DataRow → ℕ
bytes_counted n [] = n
bytes_counted n (r ∷ rs) = bytes_counted (sat_add n (length r.payload)) rs

-- An answer has all rows before it, a failure the first ones.
abbrev pub Covers : Result Response → List DataRow → List DataRow → Type 0
Covers (ok x) rows sent = rows ≡ sent
Covers (err e) rows sent = IsPrefix rows sent

-- From state `a` on, the sink has taken `rows`, and the counters say so.
pub record Delivers (a : ReadState) (sent : List DataRow) (o : Outcome) : Type 0 where
  pub rows : List DataRow
  pub reported : rows_taken o.1.reports ≡ rows_taken a.reports ++ rows
  pub counted :
      o.1.worker.stats.data_rows_delivered ≡ rows_counted a.worker.stats.data_rows_delivered rows
  pub bytes :
      o.1.worker.stats.data_row_payload_bytes
      ≡ bytes_counted a.worker.stats.data_row_payload_bytes rows
  pub covers : Covers o.0 rows sent

pub rows_taken-append :
    (xs ys : List Report) → rows_taken (xs ++ ys) ≡ rows_taken xs ++ rows_taken ys
rows_taken-append [] ys = refl
rows_taken-append (row r ∷ xs) ys = ap (◌∷◌ r) (rows_taken-append xs ys)
rows_taken-append (progress t e ∷ xs) ys = rows_taken-append xs ys
rows_taken-append (diagnosed d ∷ xs) ys = rows_taken-append xs ys

-- The rows and their bytes are those of `a`.
abbrev pub SameRows : LeanWorkerStats → LeanWorkerStats → Type 0
SameRows a b =
    (b.data_rows_delivered ≡ a.data_rows_delivered)
    × (b.data_row_payload_bytes ≡ a.data_row_payload_bytes)

pub same_streams : (a b : LeanWorkerStats) → stream_counts b ≡ stream_counts a → SameRows a b
same_streams a b k = (ap (λ (t : ℕ × ℕ × ℕ × ℕ × ℕ). t.3) k, ap (λ (t : ℕ × ℕ × ℕ × ℕ × ℕ). t.4) k)

-- A failure at once.
pub failed-Delivers :
    (a : ReadState) (sent : List DataRow) (e : LeanWorkerError) (w : LeanWorker) (waits : ℕ)
    → SameRows a.worker.stats w.stats
    → Delivers a sent (err e, record { worker = w; waits = waits; reports = a.reports })
failed-Delivers a sent e w waits (n, b) = record {
  rows = [];
  reported = sym (append-nil (rows_taken a.reports));
  counted = n;
  bytes = b;
  covers = tt;
}

-- What comes before the rest, when it is no row.
pub later-Delivers :
    (a b : ReadState) (sent : List DataRow) (o : Outcome)
    → rows_taken b.reports ≡ rows_taken a.reports
    → SameRows a.worker.stats b.worker.stats
    → Delivers b sent o
    → Delivers a sent o
later-Delivers a b sent o e (n, m) h = record {
  rows = h.rows;
  reported = h.reported ∙ ap (λ (x : List DataRow). x ++ h.rows) e;
  counted = h.counted ∙ ap (λ (x : ℕ). rows_counted x h.rows) n;
  bytes = h.bytes ∙ ap (λ (x : ℕ). bytes_counted x h.rows) m;
  covers = h.covers;
}

Covers-cons :
    (x : Result Response) (r : DataRow) (rows sent : List DataRow)
    → Covers x rows sent
    → Covers x (r ∷ rows) (r ∷ sent)
Covers-cons (ok x) r rows sent h = ap (◌∷◌ r) h
Covers-cons (err e) r rows sent h = (refl, h)

-- What comes before the rest, when it is a row.
pub row-Delivers :
    (env : ReadEnv) (a : ReadState) (r : DataRow) (sent : List DataRow) (o : Outcome)
    → Delivers (count_row env r (note_reports env (row r ∷ []) a)) sent o
    → Delivers a (r ∷ sent) o
unfolding count_row note_reports
row-Delivers env a r sent o h = record {
  rows = r ∷ h.rows;
  reported =
      h.reported
      ∙ ap (λ (x : List DataRow). x ++ h.rows) (rows_taken-append a.reports (row r ∷ []))
      ∙ append_assoc (rows_taken a.reports) (r ∷ []) h.rows;
  counted = h.counted;
  bytes = h.bytes;
  covers = Covers-cons o.0 r h.rows sent h.covers;
}
