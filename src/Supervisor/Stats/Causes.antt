-- ===== src/Supervisor/Stats/Causes.antt =====
-- How the lifetime counters account for a restart: `LeanWorkerStats::record_restart` of
-- crates/lean-rs-worker-parent/src/supervisor.rs.
use lean_rs.Common.{
  ℕ, zero, suc, ◌+◌, ◌≤◌, ◌<◌, ◌≡◌, refl, Option, none, some, List, [], ◌∷◌, arith, sat_inc,
  sat_add-of_room, u64_max,
}
use lean_rs.Supervisor.Types.{
  LeanWorkerRestartReason, explicit, max_requests, max_imports, import_residue, rss_ceiling,
  rss_hard_limit, idle, request_timeout, child_abort,
}
use lean_rs.Supervisor.Stats.{LeanWorkerStats, stream_counts, record_restart}

-- What a restart leaves alone, and the two entries that each reason moves.
pub record RecordsRestart (reason : LeanWorkerRestartReason) (s s' : LeanWorkerStats) : Type 0 where
  pub restarts : s'.restarts ≡ sat_inc s.restarts
  pub recorded : s'.last_restart_reason ≡ some reason
  pub attempts : s'.replacement_attempts ≡ s.replacement_attempts
  pub successes : s'.replacement_successes ≡ s.replacement_successes
  pub failures : s'.replacement_failures ≡ s.replacement_failures
  pub streams : stream_counts s' ≡ stream_counts s

pub record_restart-RecordsRestart :
    (reason : LeanWorkerRestartReason) (s : LeanWorkerStats)
    → RecordsRestart reason s (record_restart reason s)
unfolding record_restart
record_restart-RecordsRestart explicit s = ground arith
record_restart-RecordsRestart _ s = ground arith

-- The counters by cause.
abbrev pub by_cause : LeanWorkerStats → List ℕ
by_cause s =
    s.explicit_cycles ∷ s.max_request_restarts ∷ s.max_import_restarts ∷ s.import_residue_restarts
    ∷ s.rss_restarts ∷ s.idle_restarts ∷ s.cancelled_restarts ∷ s.timeout_restarts ∷ []

-- Whose counter it is: its place among those. A child abort has none, and both RSS limits share one.
abbrev pub counter_of : LeanWorkerRestartReason → Option ℕ
counter_of explicit = some 0
counter_of (max_requests _) = some 1
counter_of (max_imports _) = some 2
counter_of (import_residue _ _) = some 3
counter_of (rss_ceiling _ _ _) = some 4
counter_of (rss_hard_limit _ _ _ _) = some 4
counter_of (idle _ _) = some 5
counter_of (LeanWorkerRestartReason.cancelled _) = some 6
counter_of (request_timeout _ _) = some 7
counter_of (child_abort _ _ _) = none

-- One more at a place, and nothing else moved.
abbrev pub one_more_at : Option ℕ → List ℕ → List ℕ
one_more_at none ns = ns
one_more_at (some i) [] = []
one_more_at (some zero) (n ∷ ns) = (n + 1) ∷ ns
one_more_at (some (suc i)) (n ∷ ns) = n ∷ one_more_at (some i) ns

abbrev pub sum : List ℕ → ℕ
sum [] = 0
sum (n ∷ ns) = n + sum ns

room : (n : ℕ) → n < u64_max → sat_inc n ≡ n + 1
room n h = sat_add-of_room n 1 (omega arith)

-- A restart for a reason adds one to the counter of that reason and leaves the seven others as they
-- are, a restart after a child abort leaves all eight, and the count of all restarts grows by one;
-- so the counters together stay within it. The counters together are within the count of all
-- restarts before, and that count is below the largest 64-bit number.
pub by_cause-record_restart :
    (reason : LeanWorkerRestartReason) (s : LeanWorkerStats)
    → sum (by_cause s) ≤ s.restarts
    → s.restarts < u64_max
    → (by_cause (record_restart reason s) ≡ one_more_at (counter_of reason) (by_cause s))
      × ((record_restart reason s).restarts ≡ s.restarts + 1)
      × (sum (by_cause (record_restart reason s)) ≤ (record_restart reason s).restarts)
unfolding record_restart
by_cause-record_restart explicit s h k =
    rw (room s.restarts (omega arith), room s.explicit_cycles (omega arith))
      (refl, refl, omega arith)
by_cause-record_restart (max_requests _) s h k =
    rw (room s.restarts (omega arith), room s.max_request_restarts (omega arith))
      (refl, refl, omega arith)
by_cause-record_restart (max_imports _) s h k =
    rw (room s.restarts (omega arith), room s.max_import_restarts (omega arith))
      (refl, refl, omega arith)
by_cause-record_restart (import_residue _ _) s h k =
    rw (room s.restarts (omega arith), room s.import_residue_restarts (omega arith))
      (refl, refl, omega arith)
by_cause-record_restart (rss_ceiling _ _ _) s h k =
    rw (room s.restarts (omega arith), room s.rss_restarts (omega arith)) (refl, refl, omega arith)
by_cause-record_restart (rss_hard_limit _ _ _ _) s h k =
    rw (room s.restarts (omega arith), room s.rss_restarts (omega arith)) (refl, refl, omega arith)
by_cause-record_restart (idle _ _) s h k =
    rw (room s.restarts (omega arith), room s.idle_restarts (omega arith)) (refl, refl, omega arith)
by_cause-record_restart (LeanWorkerRestartReason.cancelled _) s h k =
    rw (room s.restarts (omega arith), room s.cancelled_restarts (omega arith))
      (refl, refl, omega arith)
by_cause-record_restart (request_timeout _ _) s h k =
    rw (room s.restarts (omega arith), room s.timeout_restarts (omega arith))
      (refl, refl, omega arith)
by_cause-record_restart (child_abort _ _ _) s h k =
    rw (room s.restarts (omega arith)) (refl, refl, omega arith)
