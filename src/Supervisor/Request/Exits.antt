-- ===== src/Supervisor/Request/Exits.antt =====
-- How the wait for an answer ends: each way out of the event loop of
-- crates/lean-rs-worker-parent/src/supervisor.rs.
use lean_rs.Common.{
  ℕ, ◌≡◌, refl, ◌∙◌, ◌⊎◌, inl, inr, ap, String, Bool, true, false, Option, none, some, [], ◌∷◌,
  sat_inc, ◌==◌,
}
use lean_rs.Protocol.Message.{Response}
use lean_rs.Supervisor.Types.{
  lit, LeanWorkerRestartReason, LeanWorkerError, protocol, Result, ok, err,
}
use lean_rs.Supervisor.Policy.{fresh_budget}
use lean_rs.Supervisor.Stats.{LeanWorkerStats, stream_counts}
use lean_rs.Supervisor.Frame.{IsCoherent}
use lean_rs.Supervisor.Worker.{
  LeanWorker, crashed, dead_error, current_request_id, finish_in_flight,
}
use lean_rs.Supervisor.Shutdown.{given_child, with_child, finalized, reaping_worker}
use lean_rs.Supervisor.Spawn.{Reaped, reaped, wait_fails}
use lean_rs.Supervisor.Stream.{
  completes, fail_stream, terminalize_request_failure, terminalize_request_response, wait_child,
  wait_for_exit, error_of, record_exit_error,
}
use lean_rs.Supervisor.Restart.Outcome.{Restarts, restart_with_reason-Restarts}
use lean_rs.Supervisor.Request.{
  ReadEnv, ReadState, Round, Outcome, streaming, stale_worker_output_error, id_matches,
  stale_worker_request_output_error, give_up, fail_request, after_restart, replace_and_fail,
  exit_failed,
}
use lean_rs.Supervisor.Request.Kept.{Reading, finish_state-quiet}

-- The failures that no counter of streams hears of: the reader is gone, or its event is not of the
-- child or not of the request.
pub data IsUncounted : LeanWorkerError → Type 0 where
  gone :
      IsUncounted (protocol (lit "worker response reader exited without a terminal response" ∷ []))
  stale_generation :
      (operation : String) (current actual : ℕ)
      → (actual == current) ≡ false
      → IsUncounted (stale_worker_output_error operation current actual)
  stale_request :
      (env : ReadEnv) (current : Option ℕ) (actual : ℕ)
      → id_matches env (some actual) current ≡ false
      → IsUncounted (stale_worker_request_output_error env.operation current actual)

-- Reading an answer charges no import, and an answer comes from the child that was asked.
abbrev pub Reads : LeanWorker → Result Response × LeanWorker → Type 0
Reads u (ok r, w) =
    (w.budget ≡ u.budget) × (w.pending_restart ≡ u.pending_restart) × (w.config ≡ u.config)
Reads u (err e, w) = ((w.budget ≡ u.budget) ⊎ (w.budget ≡ fresh_budget)) × (w.config ≡ u.config)

-- How a read ends for the counters of streams; `streams` says whether the request has a data sink.
pub data StreamEnd (streams : Bool) (a b : LeanWorkerStats) : Result Response → Type 0 where
  plain :
      {r : Result Response}
      → streams ≡ false
      → b.stream_successes ≡ a.stream_successes
      → b.stream_failures ≡ a.stream_failures
      → StreamEnd streams a b r
  succeeded :
      (x : Response)
      → streams ≡ true
      → completes x ≡ true
      → b.stream_successes ≡ sat_inc a.stream_successes
      → b.stream_failures ≡ a.stream_failures
      → StreamEnd streams a b (ok x)
  unfinished :
      (x : Response)
      → streams ≡ true
      → completes x ≡ false
      → b.stream_successes ≡ a.stream_successes
      → b.stream_failures ≡ sat_inc a.stream_failures
      → StreamEnd streams a b (ok x)
  failed :
      (e : LeanWorkerError)
      → streams ≡ true
      → b.stream_successes ≡ a.stream_successes
      → b.stream_failures ≡ sat_inc a.stream_failures
      → StreamEnd streams a b (err e)
  uncounted :
      {e : LeanWorkerError}
      → IsUncounted e
      → b.stream_successes ≡ a.stream_successes
      → b.stream_failures ≡ a.stream_failures
      → StreamEnd streams a b (err e)

-- The request is over: none is in flight, its id is spent, and at most one restart has happened.
pub record Answers (streams : Bool) (u : LeanWorker) (r : Result Response) (w : LeanWorker)
    : Type 0 where
  pub next_request_id : w.next_request_id ≡ u.next_request_id
  pub quiet : current_request_id w.state ≡ none
  pub coherent : IsCoherent w
  pub reads : Reads u (r, w)
  pub generation : (w.generation ≡ u.generation) ⊎ (w.generation ≡ sat_inc u.generation)
  pub ends : StreamEnd streams u.stats w.stats r

abbrev pub Answered : Bool → LeanWorker → Outcome → Type 0
Answered streams u (r, s) = Answers streams u r s.worker

-- The two ways of a failure that is counted.
data FailureEnd (streams : Bool) (a b : LeanWorkerStats) : Type 0 where
  no_stream :
      streams ≡ false
      → b.stream_successes ≡ a.stream_successes
      → b.stream_failures ≡ a.stream_failures
      → FailureEnd streams a b
  one_failure :
      streams ≡ true
      → b.stream_successes ≡ a.stream_successes
      → b.stream_failures ≡ sat_inc a.stream_failures
      → FailureEnd streams a b

failure_ends :
    (streams : Bool) (a b c : LeanWorkerStats) (e : LeanWorkerError)
    → stream_counts c ≡ stream_counts b
    → FailureEnd streams a b
    → StreamEnd streams a c (err e)
failure_ends streams a b c e k (no_stream n s f) =
    plain n (ap (λ (t : ℕ × ℕ × ℕ × ℕ × ℕ). t.1) k ∙ s) (ap (λ (t : ℕ × ℕ × ℕ × ℕ × ℕ). t.2) k ∙ f)
failure_ends streams a b c e k (one_failure n s f) =
    failed e n (ap (λ (t : ℕ × ℕ × ℕ × ℕ × ℕ). t.1) k ∙ s)
      (ap (λ (t : ℕ × ℕ × ℕ × ℕ × ℕ). t.2) k ∙ f)

-- A stream has failed, or there is none.
record Failed (streams : Bool) (u w : LeanWorker) : Type 0 where
  reading : (w.budget ≡ u.budget) × (w.config ≡ u.config) × (w.generation ≡ u.generation)
  next_request_id : w.next_request_id ≡ u.next_request_id
  coherent : IsCoherent w
  ends : FailureEnd streams u.stats w.stats

fail_stream-Failed :
    (streams : Bool) (elapsed waits : ℕ) (u w : LeanWorker)
    → Reading u w
    → Failed streams u (fail_stream streams elapsed waits w)
unfolding fail_stream
fail_stream-Failed false elapsed waits u w h = record {
  reading = (h.budget, h.config, h.generation);
  next_request_id = h.next_request_id;
  coherent = h.coherent;
  ends = no_stream refl h.successes h.failures;
}
fail_stream-Failed true elapsed waits u w h = record {
  reading = (h.budget, h.config, h.generation);
  next_request_id = h.next_request_id;
  coherent = h.coherent;
  ends = one_failure refl h.successes (ap sat_inc h.failures);
}

finished-Answers :
    (streams : Bool) (u w : LeanWorker) (e : LeanWorkerError)
    → Failed streams u w
    → Answers streams u (err e) (finish_in_flight w)
unfolding finish_in_flight
finished-Answers streams u w e h = record {
  next_request_id = h.next_request_id;
  quiet = finish_state-quiet w.generation w.state;
  coherent = h.coherent;
  reads = (inl h.reading.0, h.reading.1);
  generation = inl h.reading.2;
  ends = failure_ends streams u.stats w.stats w.stats e refl h.ends;
}

module _ (env : ReadEnv) (u : LeanWorker) where
  pub fail_request-Answered :
      (e : LeanWorkerError) (r : Round) (s : ReadState)
      → Reading u s.worker
      → Answered (streaming env) u (fail_request env e r s)
  unfolding fail_request
  fail_request-Answered e r s h =
      finished-Answers (streaming env) u _ e
        (fail_stream-Failed (streaming env) r.elapsed s.waits u s.worker h)

  pub give_up-Answered :
      (e : LeanWorkerError) (s : ReadState)
      → IsUncounted e
      → Reading u s.worker
      → Answered (streaming env) u (give_up env e s)
  unfolding give_up
  give_up-Answered e s lost h = record {
    next_request_id = h.next_request_id;
    quiet = finish_state-quiet s.worker.generation s.worker.state;
    coherent = h.coherent;
    reads = (inl h.budget, h.config);
    generation = inl h.generation;
    ends = uncounted lost h.successes h.failures;
  }

  pub response-Answered :
      (x : Response) (elapsed waits : ℕ) (w : LeanWorker)
      → Reading u w
      → Answers
          (streaming env)
          u
          (ok x)
          (terminalize_request_response x (streaming env) elapsed waits w)
  unfolding terminalize_request_response
  response-Answered x elapsed waits w h = by_stream (streaming env) (completes x) refl
    where
      by_stream :
          (streams completing : Bool)
          → completes x ≡ completing
          → Answers streams u (ok x) (terminalize_request_response x streams elapsed waits w)
      by_stream false completing e = record {
        next_request_id = h.next_request_id;
        quiet = finish_state-quiet w.generation w.state;
        coherent = h.coherent;
        reads = (h.budget, h.pending, h.config);
        generation = inl h.generation;
        ends = plain refl h.successes h.failures;
      }
      by_stream true true e = rw e (record {
        next_request_id = h.next_request_id;
        quiet = finish_state-quiet w.generation w.state;
        coherent = h.coherent;
        reads = (h.budget, h.pending, h.config);
        generation = inl h.generation;
        ends = succeeded x refl e (ap sat_inc h.successes) h.failures;
      })
      by_stream true false e = rw e (record {
        next_request_id = h.next_request_id;
        quiet = finish_state-quiet w.generation w.state;
        coherent = h.coherent;
        reads = (h.budget, h.pending, h.config);
        generation = inl h.generation;
        ends = unfinished x refl e h.successes (ap sat_inc h.failures);
      })

  after_restart-Answered :
      (reason : LeanWorkerRestartReason) (r : Round) (error_of : LeanWorker → LeanWorkerError)
      (s : ReadState) (v : LeanWorker) (x : Result (Unit {0}) × LeanWorker)
      → Failed (streaming env) u v
      → Restarts reason r.restart v x
      → Answered (streaming env) u (after_restart env error_of s x)
  unfolding after_restart finish_in_flight
  after_restart-Answered reason r error_of s v (ok _, w) h k = record {
    next_request_id = k.next_request_id ∙ h.next_request_id;
    quiet = finish_state-quiet w.generation w.state;
    coherent = k.coherent;
    reads = (inr k.budget, k.config ∙ h.reading.1);
    generation = inr (k.generation ∙ ap sat_inc h.reading.2);
    ends = failure_ends (streaming env) u.stats v.stats w.stats _ k.streams h.ends;
  }
  after_restart-Answered reason r error_of s v (err e, w) h k = record {
    next_request_id = k.next_request_id ∙ h.next_request_id;
    quiet = finish_state-quiet w.generation w.state;
    coherent = k.coherent;
    reads = (same_or_fresh k.budget, k.config ∙ h.reading.1);
    generation = inl (k.generation ∙ h.reading.2);
    ends = failure_ends (streaming env) u.stats v.stats w.stats e k.streams h.ends;
  }
    where
      same_or_fresh :
          (w.budget ≡ v.budget) ⊎ (w.budget ≡ fresh_budget)
          → (w.budget ≡ u.budget) ⊎ (w.budget ≡ fresh_budget)
      same_or_fresh (inl b) = inl (b ∙ h.reading.0)
      same_or_fresh (inr b) = inr b

  pub replace_and_fail-Answered :
      (reason : LeanWorkerRestartReason) (error_of : LeanWorker → LeanWorkerError) (r : Round)
      (s : ReadState)
      → Reading u s.worker
      → Answered (streaming env) u (replace_and_fail env reason error_of r s)
  unfolding replace_and_fail
  replace_and_fail-Answered reason error_of r s h =
      after_restart-Answered reason r error_of s _ _ f
        (restart_with_reason-Restarts reason r.restart _ f.coherent)
    where
      f : Failed (streaming env) u (fail_stream (streaming env) r.elapsed s.waits s.worker)
      f = fail_stream-Failed (streaming env) r.elapsed s.waits u s.worker h

  -- The child that closed its pipe is waited for.
  exited-Answers :
      (child : Option ℕ) (x : Reaped) (w : LeanWorker)
      → Failed (streaming env) u w
      → let v : LeanWorker = record w { state = crashed w.generation } in
        let (e, w') = error_of (given_child child (wait_child x) v) in
        Answers (streaming env) u (err e) w'
  unfolding given_child wait_child error_of dead_error finalized reaping_worker current_request_id
  exited-Answers none x w h = record {
    next_request_id = h.next_request_id;
    quiet = refl;
    coherent = h.coherent;
    reads = (inl h.reading.0, h.reading.1);
    generation = inl h.reading.2;
    ends = failure_ends (streaming env) u.stats w.stats w.stats _ refl h.ends;
  }
  exited-Answers (some pid) (reaped status text) w h = record {
    next_request_id = h.next_request_id;
    quiet = refl;
    coherent = inr refl;
    reads = (inl h.reading.0, h.reading.1);
    generation = inl h.reading.2;
    ends = failure_ends (streaming env) u.stats w.stats _ _ refl h.ends;
  }
  exited-Answers (some pid) (wait_fails e) w h = record {
    next_request_id = h.next_request_id;
    quiet = refl;
    coherent = h.coherent;
    reads = (inl h.reading.0, h.reading.1);
    generation = inl h.reading.2;
    ends = failure_ends (streaming env) u.stats w.stats w.stats _ refl h.ends;
  }

  pub exit_failed-Answered :
      (r : Round) (s : ReadState)
      → Reading u s.worker
      → Answered (streaming env) u (
          exit_failed env s (
            record_exit_error r.exit
              (terminalize_request_failure (streaming env) r.elapsed s.waits s.worker)))
  unfolding exit_failed record_exit_error terminalize_request_failure wait_for_exit with_child
      finish_in_flight
  exit_failed-Answered r s h = exited-Answers v.child r.exit (finish_in_flight v) (record {
    reading = f.reading;
    next_request_id = f.next_request_id;
    coherent = f.coherent;
    ends = f.ends;
  })
    where
      v : LeanWorker
      v = fail_stream (streaming env) r.elapsed s.waits s.worker

      f : Failed (streaming env) u v
      f = fail_stream-Failed (streaming env) r.elapsed s.waits u s.worker h
