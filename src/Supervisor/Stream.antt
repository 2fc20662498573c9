-- ===== src/Supervisor/Stream.antt =====
-- crates/lean-rs-worker-parent/src/supervisor.rs: how a request ends for the supervisor: the counters
-- of streams, the state, the exit of a child that closed its pipe, and the hard limit on its memory.
use lean_rs.Common.{
  ℕ, ◌+◌, min, Bool, true, false, Option, none, some, leb, ltb, sat_inc, if◌then◌else◌,
}
use lean_rs.Protocol.Message.{Response, stream_complete, rows_complete}
use lean_rs.Supervisor.Types.{LeanWorkerExit, LeanWorkerError, wait, Result, ok, err}
use lean_rs.Supervisor.Stats.{LeanWorkerStats}
use lean_rs.Supervisor.Worker.{
  LeanWorker, Method, crashed, exit_error, finish_in_flight, child_rss_kib,
}
use lean_rs.Supervisor.Shutdown.{finalized, with_child, reaping_worker}
use lean_rs.Supervisor.Spawn.{Reaped, reaped, wait_fails}

-- `Duration::MAX` in nanoseconds.
abbrev pub duration_max : ℕ
duration_max = 18446744073709551615999999999

unfoldable pub sat_add_duration : ℕ → ℕ → ℕ
sat_add_duration a b = min (a + b) duration_max

success_stats : ℕ → LeanWorkerStats → LeanWorkerStats
unfolding sat_add_duration
success_stats elapsed s = record s {
  stream_successes = sat_inc s.stream_successes;
  stream_elapsed = sat_add_duration s.stream_elapsed elapsed;
}

failure_stats : ℕ → ℕ → LeanWorkerStats → LeanWorkerStats
unfolding sat_add_duration
failure_stats elapsed waits s = record s {
  stream_failures = sat_inc s.stream_failures;
  stream_elapsed = sat_add_duration s.stream_elapsed elapsed;
  backpressure_failures =
      if ltb 0 waits then sat_inc s.backpressure_failures else s.backpressure_failures;
}

-- `LeanWorker::record_stream_success`.
unfoldable pub record_stream_success : ℕ → LeanWorker → LeanWorker
unfolding success_stats
record_stream_success elapsed w = record w { stats = success_stats elapsed w.stats }

-- `LeanWorker::record_stream_failure`, after `waits` waits of the reader.
unfoldable pub record_stream_failure : ℕ → ℕ → LeanWorker → LeanWorker
unfolding failure_stats
record_stream_failure elapsed waits w = record w { stats = failure_stats elapsed waits w.stats }

-- A failure is recorded for a request with a data sink only.
unfoldable pub fail_stream : Bool → ℕ → ℕ → LeanWorker → LeanWorker
unfolding record_stream_failure
fail_stream streaming elapsed waits w =
    if streaming then record_stream_failure elapsed waits w else w

unfoldable pub completes : Response → Bool
completes (stream_complete s) = true
completes (rows_complete n) = true
completes r = false

-- `LeanWorker::terminalize_request_response`; the response is handed on.
unfoldable pub terminalize_request_response : Response → Bool → ℕ → ℕ → LeanWorker → LeanWorker
unfolding completes record_stream_success record_stream_failure finish_in_flight
terminalize_request_response response streaming elapsed waits w = finish_in_flight (
    if streaming
    then if completes response
      then record_stream_success elapsed w
      else record_stream_failure elapsed waits w
    else w)

-- `LeanWorker::terminalize_request_failure`.
unfoldable pub terminalize_request_failure : Bool → ℕ → ℕ → LeanWorker → LeanWorker
unfolding fail_stream finish_in_flight
terminalize_request_failure streaming elapsed waits w =
    finish_in_flight (fail_stream streaming elapsed waits w)

unfoldable pub wait_child : Reaped → Method LeanWorkerExit
unfolding finalized reaping_worker
wait_child (reaped s text) w = finalized s text (reaping_worker w)
wait_child (wait_fails e) w = (err (wait e), reaping_worker w)

-- `LeanWorker::wait_for_exit`, with the answer of the wait.
unfoldable pub wait_for_exit : Reaped → Method LeanWorkerExit
unfolding wait_child with_child
wait_for_exit r = with_child (wait_child r)

unfoldable pub error_of : Result LeanWorkerExit × LeanWorker → LeanWorkerError × LeanWorker
unfolding exit_error
error_of (ok exit, w) = (exit_error exit, w)
error_of (err e, w) = (e, w)

-- `LeanWorker::record_exit_error`.
unfoldable pub record_exit_error : Reaped → LeanWorker → LeanWorkerError × LeanWorker
unfolding error_of wait_for_exit
record_exit_error r w = error_of (wait_for_exit r (record w { state = crashed w.generation }))

-- The sample is recorded, or its absence counted; over the limit it is given back.
unfoldable pub sample_over : ℕ → Option ℕ → LeanWorker → Option (ℕ × ℕ) × LeanWorker
sample_over limit none w = (
  none,
  record w {
    stats = record w.stats { rss_samples_unavailable = sat_inc w.stats.rss_samples_unavailable };
  },
)
sample_over limit (some current) w = (
  if leb limit current then some (current, limit) else none,
  record w { stats = record w.stats { last_rss_kib = some current } },
)

unfoldable pub over_limit : Option ℕ → Option ℕ → LeanWorker → Option (ℕ × ℕ) × LeanWorker
unfolding sample_over child_rss_kib
over_limit none sample w = (none, w)
over_limit (some limit) sample w = sample_over limit (child_rss_kib w sample) w

-- `LeanWorker::hard_rss_limit_exceeded`.
unfoldable pub hard_rss_limit_exceeded : Option ℕ → LeanWorker → Option (ℕ × ℕ) × LeanWorker
unfolding over_limit
hard_rss_limit_exceeded sample w = over_limit w.config.rss_hard_limit_kib sample w
