-- ===== src/Supervisor/Request/Reads.antt =====
-- The whole wait for an answer: `read_response_with_events` of
-- crates/lean-rs-worker-parent/src/supervisor.rs, whatever the child, the clock and the sinks do.
use lean_rs.Common.{
  ℕ, refl, inl, inr, Bool, true, false, ◌&&◌, Option, none, some, [], ltb, ◌==◌, if_rule,
  Bool-cases, if◌then◌else◌,
}
use lean_rs.Common.Options
use lean_rs.Protocol.Message.{
  Message, response, progress_tick, data_row, diagnostic, error, DataRow,
}
use lean_rs.Supervisor.Types.{ok, err}
use lean_rs.Supervisor.Frame.{IsCoherent}
use lean_rs.Supervisor.Worker.{LeanWorker, current_request_id, dead_error}
use lean_rs.Supervisor.Reader.{
  RequestReaderEvent, message, terminal, read_error, event_generation, event_backpressure_waits,
  event_request_id,
}
use lean_rs.Supervisor.Sinks.{Reported, taken, failed}
use lean_rs.Supervisor.Stream.{hard_rss_limit_exceeded}
use lean_rs.Supervisor.Request.{
  Received, event, timed_out, disconnected, Round, Trace, round, hangs_up, ReadEnv, ReadState,
  Outcome, streaming, over_hard_limit, hard_limit_error, timeout_error, cancelled_error, time_out,
  cancel, reader_gone, note_reports, cancel_or, on_progress, on_row, on_diagnostic, on_message,
  on_terminal, on_read_error, on_current, check_request, id_matches, on_event, wait_for,
  on_recv_timeout, on_recv, by_remaining, by_limit, checked_duration_since, checked_add, read_round,
  no_more, read_trace, begin_read, read_response_with_events, read_response,
}
use lean_rs.Supervisor.Request.Kept.{
  Reading, Reading-refl, mark_streaming-Reading, count_waits-Reading, count_row-Reading,
  hold_stdout-Reading, hard_rss_limit_exceeded-Reading,
}
use lean_rs.Supervisor.Request.Exits.{
  gone, stale_generation, stale_request, Reads, Answered, fail_request-Answered, give_up-Answered,
  response-Answered, replace_and_fail-Answered, exit_failed-Answered,
}

module _ (env : ReadEnv) (u : LeanWorker) where
  abbrev Good : Outcome → Type 0
  Good = Answered (streaming env) u

  -- What follows a round answers from every state of the wait.
  abbrev Goes : (ReadState → Outcome) → Type 0
  Goes again = (s : ReadState) → Reading u s.worker → Good (again s)

  reader_gone-Good : Goes (reader_gone env)
  unfolding reader_gone
  reader_gone-Good s h = give_up-Answered env u _ s gone h

  cancel-Good : (r : Round) → Goes (cancel env r)
  unfolding cancel
  cancel-Good r s h = replace_and_fail-Answered env u _ (cancelled_error env) r s h

  time_out-Good : (r : Round) → Goes (time_out env r)
  unfolding time_out
  time_out-Good r s h = replace_and_fail-Answered env u _ (timeout_error env _) r s h

  cancel_or-Good :
      (again : ReadState → Outcome) (r : Round) → Goes again → Goes (cancel_or env again r)
  unfolding cancel_or
  cancel_or-Good again r go s h =
      if_rule Good r.cancelled {x = cancel env r s} {y = again s} (cancel-Good r s h) (go s h)

  on_progress-Good :
      (again : ReadState → Outcome) (r : Round) (s : ReadState) (x : Reported)
      → Goes again
      → Reading u s.worker
      → Good (on_progress env again r s x)
  unfolding on_progress note_reports
  on_progress-Good again r s (failed e) go h = fail_request-Answered env u e r s h
  on_progress-Good again r s (taken rs) go h = cancel_or-Good again r go (note_reports env rs s) h

  on_diagnostic-Good :
      (again : ReadState → Outcome) (r : Round) (s : ReadState) (x : Reported)
      → Goes again
      → Reading u s.worker
      → Good (on_diagnostic env again r s x)
  unfolding on_diagnostic note_reports
  on_diagnostic-Good again r s (failed e) go h = fail_request-Answered env u e r s h
  on_diagnostic-Good again r s (taken rs) go h = go (note_reports env rs s) h

  on_row-Good :
      (again : ReadState → Outcome) (r : Round) (s : ReadState) (row : DataRow) (x : Reported)
      → Goes again
      → Reading u s.worker
      → Good (on_row env again r s row x)
  unfolding on_row note_reports
  on_row-Good again r s row (failed e) go h = fail_request-Answered env u e r s h
  on_row-Good again r s row (taken rs) go h =
      cancel_or-Good again r go _ (count_row-Reading env row (note_reports env rs s) h)

  on_message-Good :
      (again : ReadState → Outcome) (r : Round) (m : Message)
      → Goes again
      → Goes (on_message env again r m)
  unfolding on_message
  on_message-Good again r (progress_tick tick) go s h =
      on_progress-Good again r _ _ go (mark_streaming-Reading s.worker h)
  on_message-Good again r (data_row row) go s h =
      on_row-Good again r _ row _ go (mark_streaming-Reading s.worker h)
  on_message-Good again r (diagnostic d) go s h =
      on_diagnostic-Good again r _ _ go (mark_streaming-Reading s.worker h)
  on_message-Good again r (response x) go s h = fail_request-Answered env u _ r s h
  on_message-Good again r _ go s h = fail_request-Answered env u _ r s h

  on_terminal-Good : (r : Round) (m : Message) → Goes (on_terminal env r m)
  unfolding on_terminal
  on_terminal-Good r (response (error code text)) s h = fail_request-Answered env u _ r s h
  on_terminal-Good r (response x) s h = response-Answered env u x r.elapsed s.waits s.worker h
  on_terminal-Good r _ s h = fail_request-Answered env u _ r s h

  on_current-Good :
      (again : ReadState → Outcome) (r : Round) (e : RequestReaderEvent)
      → Goes again
      → Goes (on_current env again r e)
  unfolding on_current on_read_error
  on_current-Good again r (message g i m b) go s h = on_message-Good again r m go s h
  on_current-Good again r (terminal g i m b) go s h =
      on_terminal-Good r m _ (hold_stdout-Reading env s h)
  on_current-Good again r (read_error g i e true b) go s h = exit_failed-Answered env u r s h
  on_current-Good again r (read_error g i e false b) go s h = fail_request-Answered env u _ r s h

  check_request-Good :
      (again : ReadState → Outcome) (r : Round) (e : RequestReaderEvent) (id : Option ℕ)
      → Goes again
      → Goes (λ s. check_request env again r e id s)
  unfolding check_request
  check_request-Good again r e none go s h =
      on_current-Good again r e go _ (count_waits-Reading env (event_backpressure_waits e) s h)
  check_request-Good again r e (some n) go s h =
      elim (Bool-cases (id_matches env (some n) (current_request_id s.worker.state))) [
        | inl t ↦ rw t (
            on_current-Good again r e go _
              (count_waits-Reading env (event_backpressure_waits e) s h))
        | inr t ↦ rw t (give_up-Answered env u _ s (stale_request env _ n t) h)
      ]

  on_event-Good :
      (again : ReadState → Outcome) (r : Round) (e : RequestReaderEvent)
      → Goes again
      → Goes (on_event env again r e)
  unfolding on_event
  on_event-Good again r e go s h = elim (Bool-cases (event_generation e == s.worker.generation)) [
    | inl t ↦ rw t (check_request-Good again r e (event_request_id e) go s h)
    | inr t ↦ rw t (give_up-Answered env u _ s (stale_generation env.operation _ _ t) h)
  ]

  on_recv-Good :
      (again : Bool → ReadState → Outcome) (r : Round) (x : Received)
      → ((b : Bool) → Goes (again b))
      → Goes (on_recv env again r x)
  unfolding on_recv
  on_recv-Good again r (event e) go s h = on_event-Good (again false) r e (go false) s h
  on_recv-Good again r timed_out go s h = go true s h
  on_recv-Good again r disconnected go s h = reader_gone-Good s h

  on_recv_timeout-Good :
      (again : Bool → ReadState → Outcome) (r : Round) (remaining : ℕ) (x : Received)
      → ((b : Bool) → Goes (again b))
      → Goes (on_recv_timeout env again r remaining x)
  unfolding on_recv_timeout
  on_recv_timeout-Good again r remaining (event e) go s h =
      on_event-Good (again false) r e (go false) s h
  on_recv_timeout-Good again r remaining disconnected go s h = reader_gone-Good s h
  on_recv_timeout-Good again r remaining timed_out go s h =
      if_rule Good
        (Options.is_some s.worker.config.rss_hard_limit_kib
          && ltb (wait_for env s.worker remaining) remaining)
        {x = again false s} {y = time_out env r s} (go false s h) (time_out-Good r s h)

  by_remaining-Good :
      (again : Bool → ReadState → Outcome) (r : Round) (x : Received) (remaining : Option ℕ)
      → ((b : Bool) → Goes (again b))
      → Goes (by_remaining env again r x remaining)
  unfolding by_remaining
  by_remaining-Good again r x none go s h = on_recv-Good again r x go s h
  by_remaining-Good again r x (some remaining) go s h =
      if_rule Good (remaining == 0) {x = time_out env r s}
        {y = on_recv_timeout env again r remaining x s} (time_out-Good r s h)
        (on_recv_timeout-Good again r remaining x go s h)

  by_limit-Good :
      (again : Bool → ReadState → Outcome) (r : Round) (x : Received) (s : ReadState)
      (over : Option (ℕ × ℕ) × LeanWorker)
      → ((b : Bool) → Goes (again b))
      → Reading u over.1
      → Good (by_limit env again r x s over)
  unfolding by_limit over_hard_limit
  by_limit-Good again r x s (some (current, limit), w) go h =
      replace_and_fail-Answered env u _ (hard_limit_error env current limit _) r
        (record s { worker = w }) h
  by_limit-Good again r x s (none, w) go h =
      by_remaining-Good again r x
        (checked_duration_since r.now
          (checked_add env.instant_max env.started w.config.request_timeout))
        go (record s { worker = w }) h

  read_round-Good :
      (again : Bool → ReadState → Outcome) (r : Round) (x : Received) (blocked : Bool)
      → ((b : Bool) → Goes (again b))
      → Goes (read_round env again r x blocked)
  unfolding read_round
  read_round-Good again r x true go s h = on_recv-Good again r x go s h
  read_round-Good again r x false go s h =
      by_limit-Good again r x s (hard_rss_limit_exceeded r.rss s.worker) go
        (hard_rss_limit_exceeded-Reading r.rss s.worker h)

  pub read_trace-Answered :
      (t : Trace) (blocked : Bool) (s : ReadState)
      → Reading u s.worker
      → Good (read_trace env t blocked s)
  unfolding read_trace no_more
  read_trace-Answered (hangs_up r) blocked s h =
      read_round-Good (no_more env) r disconnected blocked (λ b. reader_gone-Good) s h
  read_trace-Answered (round r x rest) blocked s h =
      read_round-Good (read_trace env rest) r x blocked (read_trace-Answered rest) s h

-- `read_response`, whether or not the worker holds its pipe.
pub read_response-Reads :
    (env : ReadEnv) (w : LeanWorker) → IsCoherent w → Reads w (read_response env w)
unfolding read_response read_response_with_events begin_read
read_response-Reads env w c = by_pipe w.stdout
  where
    after :
        (o : Outcome)
        → Answered (streaming env) (begin_read env w).worker o
        → Reads w (o.0, o.1.worker)
    after (ok x, s) h = h.reads
    after (err e, s) h = h.reads

    by_pipe :
        (b : Bool)
        → let o : Outcome =
            if b
            then read_trace env env.trace false (begin_read env w)
            else (err (dead_error w), record { worker = w; waits = 0; reports = [] }) in
          Reads w (o.0, o.1.worker)
    by_pipe true =
        after (read_trace env env.trace false (begin_read env w))
          (read_trace-Answered env _ env.trace false (begin_read env w) (Reading-refl _ c))
    by_pipe false = (inl refl, refl)
