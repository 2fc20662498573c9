-- ===== src/Supervisor/Measure.antt =====
-- crates/lean-rs-worker-parent/src/supervisor.rs: the measurements and settings of a worker that its
-- pool uses.
use lean_rs.Common.{ℕ, Bool, true, false, Option, none, some, sat_inc}
use lean_rs.Common.Options
use lean_rs.Supervisor.Stats.{LeanWorkerReplacementTiming, LeanWorkerLifecycleSnapshot, from_worker}
use lean_rs.Supervisor.Worker.{LeanWorker, child_rss_kib}

note_sample : Option ℕ → LeanWorker → LeanWorker
note_sample (some value) w = record w { stats = record w.stats { last_rss_kib = some value } }
note_sample none w = record w {
  stats = record w.stats { rss_samples_unavailable = sat_inc w.stats.rss_samples_unavailable };
}

-- `LeanWorker::rss_kib`, with the sample that the platform gives for a live process.
unfoldable pub rss_kib : Option ℕ → LeanWorker → Option ℕ × LeanWorker
unfolding note_sample
rss_kib sample w = let value = child_rss_kib w sample in (value, note_sample value w)

-- `LeanWorker::record_command_timing`.
unfoldable pub record_command_timing : Bool → ℕ → LeanWorker → LeanWorker
record_command_timing true elapsed w = record w {
  stats = record w.stats {
    last_first_command_elapsed = some elapsed;
    last_replacement_timing =
        Options.map (λ (t : LeanWorkerReplacementTiming). record t { first_command = some elapsed })
          w.stats.last_replacement_timing;
  };
}
record_command_timing false elapsed w = record w {
  stats = record w.stats {
    last_warm_command_elapsed = some elapsed;
    last_replacement_timing =
        Options.map (λ (t : LeanWorkerReplacementTiming). record t { warm_command = some elapsed })
          w.stats.last_replacement_timing;
  };
}

-- `LeanWorker::set_request_timeout`.
unfoldable pub set_request_timeout : ℕ → LeanWorker → LeanWorker
set_request_timeout timeout w = record w { config = record w.config { request_timeout = timeout } }

-- `LeanWorker::lifecycle_snapshot`.
unfoldable pub lifecycle_snapshot : LeanWorker → LeanWorkerLifecycleSnapshot
unfolding from_worker
lifecycle_snapshot w =
    from_worker w.stats w.last_exit w.budget.import_residue_bytes
      w.config.restart_policy.max_import_residue_bytes
