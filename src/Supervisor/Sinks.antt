-- ===== src/Supervisor/Sinks.antt =====
-- crates/lean-rs-worker-parent/src/session.rs: the reports to the parent's sinks. A sink is a call of
-- the embedder that may panic; what it does is an argument, and what it has taken is recorded.
use lean_rs.Common.{ℕ, String, Bool, true, false, Option, none, some, List, [], ◌∷◌}
use lean_rs.Common.Options
use lean_rs.Protocol.Message.{DataRow, Diagnostic, ProgressTick}
use lean_rs.Supervisor.Types.{
  lit, LeanWorkerError, protocol, progress_panic, data_sink_panic, diagnostic_sink_panic,
}

-- `catch_unwind` of a report: it returns, or it panics with a text or with another payload.
pub data Unwind : Type 0 where
  returns : Unwind
  panics : Option String → Unwind

-- What a sink has taken: a progress event with the time that has passed, a row or a diagnostic.
pub data Report : Type 0 where
  progress : ProgressTick → ℕ → Report
  row : DataRow → Report
  diagnosed : Diagnostic → Report

-- `LeanWorkerDataSinkTarget`. A value sink takes decoded rows; serde_json may refuse a payload.
pub data LeanWorkerDataSinkTarget : Type 0 where
  value : (List ℕ → Option String) → LeanWorkerDataSinkTarget
  raw : LeanWorkerDataSinkTarget

-- What a report returns: what was taken, or an error.
pub data Reported : Type 0 where
  taken : List Report → Reported
  failed : LeanWorkerError → Reported

unfoldable pub caught : (String → LeanWorkerError) → String → Report → Unwind → Reported
caught to_error fallback report returns = taken (report ∷ [])
caught to_error fallback report (panics payload) =
    failed (to_error (Options.get_or payload fallback))

-- `report_parent_progress` of the `elapsed_event`.
unfoldable pub report_parent_progress : Bool → ProgressTick → ℕ → Unwind → Reported
unfolding caught
report_parent_progress false tick elapsed u = taken []
report_parent_progress true tick elapsed u =
    caught progress_panic "worker progress sink panicked" (progress tick elapsed) u

-- `LeanWorkerDataRow::try_from` and `report_value_data_row`.
unfoldable pub report_value_row : Option String → DataRow → Unwind → Reported
unfolding caught
report_value_row none r u = caught data_sink_panic "worker data sink panicked" (row r) u
report_value_row (some e) r u =
    failed (protocol (lit "worker data-row payload decode failed: " ∷ lit e ∷ []))

-- `report_parent_data_row`.
unfoldable pub report_parent_data_row :
    Option LeanWorkerDataSinkTarget → DataRow → Unwind → Reported
unfolding report_value_row caught
report_parent_data_row none r u =
    failed (protocol (lit "worker sent data row for a request without a row sink" ∷ []))
report_parent_data_row (some (value refuses)) r u = report_value_row (refuses r.payload) r u
report_parent_data_row (some raw) r u = caught data_sink_panic "worker data sink panicked" (row r) u

-- `report_parent_diagnostic`.
unfoldable pub report_parent_diagnostic : Bool → Diagnostic → Unwind → Reported
unfolding caught
report_parent_diagnostic false d u = taken []
report_parent_diagnostic true d u =
    caught diagnostic_sink_panic "worker diagnostic sink panicked" (diagnosed d) u
