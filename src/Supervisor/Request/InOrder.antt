-- ===== src/Supervisor/Request/InOrder.antt =====
-- The order of what the sinks receive: `read_response_with_events` of
-- crates/lean-rs-worker-parent/src/supervisor.rs, whatever the child, the clock and the sinks do.
use lean_rs.Common.{
  ℕ, ◌≡◌, refl, ◌∙◌, ap, Bool, true, false, ◌&&◌, Option, none, some, List, [], ◌∷◌, ◌++◌, ltb,
  ◌==◌, if_rule, if◌then◌else◌, arith,
}
use mathlib.Core.List.{append-nil}
use lean_rs.Common.Options
use lean_rs.Protocol.Message.{Message, response, progress_tick, data_row, diagnostic, DataRow}
use lean_rs.Supervisor.Types.{err}
use lean_rs.Supervisor.Frame.{IsCoherent}
use lean_rs.Supervisor.Worker.{
  LeanWorker, current_request_id, dead_error, mark_current_request_streaming,
}
use lean_rs.Supervisor.Reader.{
  RequestReaderEvent, message, terminal, read_error, event_generation, event_backpressure_waits,
  event_request_id,
}
use lean_rs.Supervisor.Sinks.{Report, row, Reported, taken, failed}
use lean_rs.Supervisor.Stream.{hard_rss_limit_exceeded, over_limit, sample_over}
use lean_rs.Supervisor.Request.{
  Received, event, timed_out, disconnected, Round, Trace, round, hangs_up, ReadEnv, ReadState,
  Outcome, hard_limit_error, timeout_error, cancelled_error, over_hard_limit, time_out, cancel,
  reader_gone, note_reports, cancel_or, on_progress, count_row, on_row, on_diagnostic, on_message,
  on_current, count_waits, check_request, id_matches, on_event, wait_for, on_recv_timeout, on_recv,
  by_remaining, by_limit, checked_duration_since, checked_add, read_round, no_more, read_trace,
  begin_read, read_response_with_events,
}
use lean_rs.Supervisor.Request.Kept.{
  Reading, Reading-refl, mark_streaming-Reading, count_waits-Reading, count_row-Reading,
  hard_rss_limit_exceeded-Reading,
}
use lean_rs.Supervisor.Request.Delivers.{
  rows_taken, row_first, rows_from, rows_sent, Delivers, rows_taken-append, SameRows,
  later-Delivers, row-Delivers,
}
use lean_rs.Supervisor.Request.Handed.{
  fail_request-Delivers, give_up-Delivers, replace_and_fail-Delivers, on_read_error-Delivers,
  on_terminal-Delivers, TakesRow, takes, refuses, report_parent_data_row-TakesRow, HoldsNoRow,
  report_parent_progress-HoldsNoRow, report_parent_diagnostic-HoldsNoRow,
}

-- The pipe is back.
abbrev holding : ReadState → ReadState
holding s = record s { worker = record s.worker { stdout = true } }

noted-no_row :
    (s : ReadState) (rs : List Report)
    → rows_taken rs ≡ []
    → rows_taken (s.reports ++ rs) ≡ rows_taken s.reports
noted-no_row s rs n =
    rows_taken-append s.reports rs
    ∙ ap (λ (x : List DataRow). rows_taken s.reports ++ x) n
    ∙ append-nil (rows_taken s.reports)

abbrev marked : ReadState → ReadState
marked s = record s { worker = mark_current_request_streaming s.worker }

module _ (env : ReadEnv) (u : LeanWorker) where
  counted-Reading :
      (d : DataRow) (s : ReadState)
      → Reading u s.worker
      → Reading u (count_row env d (note_reports env (row d ∷ []) s)).worker
  unfolding note_reports
  counted-Reading d s h = count_row-Reading env d (note_reports env (row d ∷ []) s) h

  -- What follows a round delivers the rows that are still to come.
  abbrev Goes : List DataRow → (ReadState → Outcome) → Type 0
  Goes sent again = (s : ReadState) → Reading u s.worker → Delivers s sent (again s)

  cancel-Delivers : (sent : List DataRow) (r : Round) → Goes sent (cancel env r)
  unfolding cancel
  cancel-Delivers sent r s h =
      replace_and_fail-Delivers env sent _ (cancelled_error env) r s h.coherent

  time_out-Delivers : (sent : List DataRow) (r : Round) → Goes sent (time_out env r)
  unfolding time_out
  time_out-Delivers sent r s h =
      replace_and_fail-Delivers env sent _ (timeout_error env _) r s h.coherent

  reader_gone-Delivers : (sent : List DataRow) → Goes sent (reader_gone env)
  unfolding reader_gone
  reader_gone-Delivers sent s h = give_up-Delivers env sent _ s

  cancel_or-Delivers :
      (sent : List DataRow) (again : ReadState → Outcome) (r : Round)
      → Goes sent again
      → Goes sent (cancel_or env again r)
  unfolding cancel_or
  cancel_or-Delivers sent again r go s h =
      if_rule (Delivers s sent) r.cancelled {x = cancel env r s} {y = again s}
        (cancel-Delivers sent r s h) (go s h)

  on_progress-Delivers :
      (sent : List DataRow) (again : ReadState → Outcome) (r : Round) (s : ReadState) (x : Reported)
      → Goes sent again
      → HoldsNoRow x
      → Reading u s.worker
      → Delivers s sent (on_progress env again r s x)
  unfolding on_progress note_reports
  on_progress-Delivers sent again r s (failed e) go n h = fail_request-Delivers env sent e r s
  on_progress-Delivers sent again r s (taken rs) go n h =
      later-Delivers s (note_reports env rs s) sent _ (noted-no_row s rs n) (refl, refl)
        (cancel_or-Delivers sent again r go (note_reports env rs s) h)

  on_diagnostic-Delivers :
      (sent : List DataRow) (again : ReadState → Outcome) (r : Round) (s : ReadState) (x : Reported)
      → Goes sent again
      → HoldsNoRow x
      → Reading u s.worker
      → Delivers s sent (on_diagnostic env again r s x)
  unfolding on_diagnostic note_reports
  on_diagnostic-Delivers sent again r s (failed e) go n h = fail_request-Delivers env sent e r s
  on_diagnostic-Delivers sent again r s (taken rs) go n h =
      later-Delivers s (note_reports env rs s) sent _ (noted-no_row s rs n) (refl, refl)
        (go (note_reports env rs s) h)

  on_row-Delivers :
      (sent : List DataRow) (again : ReadState → Outcome) (r : Round) (s : ReadState) (d : DataRow)
      (x : Reported)
      → Goes sent again
      → TakesRow d x
      → Reading u s.worker
      → Delivers s (d ∷ sent) (on_row env again r s d x)
  unfolding on_row
  on_row-Delivers sent again r s d x go (refuses e) h = fail_request-Delivers env (d ∷ sent) e r s
  on_row-Delivers sent again r s d x go takes h = row-Delivers env s d sent _ (
      cancel_or-Delivers sent again r go (count_row env d (note_reports env (row d ∷ []) s))
        (counted-Reading d s h))

  on_message-Delivers :
      (sent : List DataRow) (again : ReadState → Outcome) (r : Round) (m : Message)
      → Goes sent again
      → Goes (row_first m sent) (on_message env again r m)
  unfolding on_message mark_current_request_streaming
  on_message-Delivers sent again r (progress_tick tick) go s h =
      later-Delivers s (marked s) sent _ refl (refl, refl)
        (on_progress-Delivers sent again r (marked s) _ go
          (report_parent_progress-HoldsNoRow env.progress tick r.elapsed r.sink)
          (mark_streaming-Reading s.worker h))
  on_message-Delivers sent again r (data_row d) go s h =
      later-Delivers s (marked s) (d ∷ sent) _ refl (refl, refl)
        (on_row-Delivers sent again r (marked s) d _ go
          (report_parent_data_row-TakesRow env.sink_target d r.sink)
          (mark_streaming-Reading s.worker h))
  on_message-Delivers sent again r (diagnostic d) go s h =
      later-Delivers s (marked s) sent _ refl (refl, refl)
        (on_diagnostic-Delivers sent again r (marked s) _ go
          (report_parent_diagnostic-HoldsNoRow env.diagnostics d r.sink)
          (mark_streaming-Reading s.worker h))
  on_message-Delivers sent again r (response x) go s h = fail_request-Delivers env sent _ r s
  on_message-Delivers sent again r _ go s h = fail_request-Delivers env sent _ r s

  on_current-Delivers :
      (sent : List DataRow) (again : ReadState → Outcome) (r : Round) (e : RequestReaderEvent)
      → Goes sent again
      → Goes (rows_from e sent) (on_current env again r e)
  unfolding on_current
  on_current-Delivers sent again r (message g i m b) go s h =
      on_message-Delivers sent again r m go s h
  on_current-Delivers sent again r (terminal g i m b) go s h =
      later-Delivers s (holding s) [] _ refl (refl, refl) (on_terminal-Delivers env r m (holding s))
  on_current-Delivers sent again r (read_error g i e eof b) go s h =
      on_read_error-Delivers env [] r e eof s

  counted_waits-Delivers :
      (sent : List DataRow) (again : ReadState → Outcome) (r : Round) (e : RequestReaderEvent)
      → Goes sent again
      → Goes
          (rows_from e sent)
          (λ s. on_current env again r e (count_waits env (event_backpressure_waits e) s))
  unfolding count_waits
  counted_waits-Delivers sent again r e go s h =
      later-Delivers s (count_waits env (event_backpressure_waits e) s) (rows_from e sent) _ refl
        (refl, refl)
        (on_current-Delivers sent again r e go _
          (count_waits-Reading env (event_backpressure_waits e) s h))

  check_request-Delivers :
      (sent : List DataRow) (again : ReadState → Outcome) (r : Round) (e : RequestReaderEvent)
      (id : Option ℕ)
      → Goes sent again
      → Goes (rows_from e sent) (check_request env again r e id)
  unfolding check_request
  check_request-Delivers sent again r e none go s h = counted_waits-Delivers sent again r e go s h
  check_request-Delivers sent again r e (some n) go s h =
      if_rule (Delivers s (rows_from e sent))
        (id_matches env (some n) (current_request_id s.worker.state))
        (counted_waits-Delivers sent again r e go s h) (give_up-Delivers env (rows_from e sent) _ s)

  on_event-Delivers :
      (sent : List DataRow) (again : ReadState → Outcome) (r : Round) (e : RequestReaderEvent)
      → Goes sent again
      → Goes (rows_from e sent) (on_event env again r e)
  unfolding on_event
  on_event-Delivers sent again r e go s h =
      if_rule (Delivers s (rows_from e sent)) (event_generation e == s.worker.generation)
        (check_request-Delivers sent again r e (event_request_id e) go s h)
        (give_up-Delivers env (rows_from e sent) _ s)

  -- The rows of a round and of those behind it.
  abbrev with_event : Received → List DataRow → List DataRow
  with_event (event e) sent = rows_from e sent
  with_event timed_out sent = sent
  with_event disconnected sent = sent

  on_recv-Delivers :
      (sent : List DataRow) (again : Bool → ReadState → Outcome) (r : Round) (x : Received)
      → ((b : Bool) → Goes sent (again b))
      → Goes (with_event x sent) (on_recv env again r x)
  unfolding on_recv
  on_recv-Delivers sent again r (event e) go s h =
      on_event-Delivers sent (again false) r e (go false) s h
  on_recv-Delivers sent again r timed_out go s h = go true s h
  on_recv-Delivers sent again r disconnected go s h = reader_gone-Delivers sent s h

  on_recv_timeout-Delivers :
      (sent : List DataRow) (again : Bool → ReadState → Outcome) (r : Round) (remaining : ℕ)
      (x : Received)
      → ((b : Bool) → Goes sent (again b))
      → Goes (with_event x sent) (on_recv_timeout env again r remaining x)
  unfolding on_recv_timeout
  on_recv_timeout-Delivers sent again r remaining (event e) go s h =
      on_event-Delivers sent (again false) r e (go false) s h
  on_recv_timeout-Delivers sent again r remaining disconnected go s h =
      reader_gone-Delivers sent s h
  on_recv_timeout-Delivers sent again r remaining timed_out go s h =
      if_rule (Delivers s sent)
        (Options.is_some s.worker.config.rss_hard_limit_kib
          && ltb (wait_for env s.worker remaining) remaining)
        (go false s h) (time_out-Delivers sent r s h)

  by_remaining-Delivers :
      (sent : List DataRow) (again : Bool → ReadState → Outcome) (r : Round) (x : Received)
      (remaining : Option ℕ)
      → ((b : Bool) → Goes sent (again b))
      → Goes (with_event x sent) (by_remaining env again r x remaining)
  unfolding by_remaining
  by_remaining-Delivers sent again r x none go s h = on_recv-Delivers sent again r x go s h
  by_remaining-Delivers sent again r x (some remaining) go s h =
      if_rule (Delivers s (with_event x sent)) (remaining == 0)
        (time_out-Delivers (with_event x sent) r s h)
        (on_recv_timeout-Delivers sent again r remaining x go s h)

  by_limit-Delivers :
      (sent : List DataRow) (again : Bool → ReadState → Outcome) (r : Round) (x : Received)
      (s : ReadState) (over : Option (ℕ × ℕ) × LeanWorker)
      → ((b : Bool) → Goes sent (again b))
      → Reading u over.1
      → Delivers (record s { worker = over.1 }) (with_event x sent) (by_limit env again r x s over)
  unfolding by_limit over_hard_limit
  by_limit-Delivers sent again r x s (some (current, limit), w) go h =
      replace_and_fail-Delivers env (with_event x sent) _ (hard_limit_error env current limit _) r
        (record s { worker = w }) h.coherent
  by_limit-Delivers sent again r x s (none, w) go h =
      by_remaining-Delivers sent again r x
        (checked_duration_since r.now
          (checked_add env.instant_max env.started w.config.request_timeout))
        go (record s { worker = w }) h

  sampled-SameRows :
      (sample : Option ℕ) (w : LeanWorker)
      → SameRows w.stats (hard_rss_limit_exceeded sample w).1.stats
  unfolding hard_rss_limit_exceeded over_limit sample_over
  sampled-SameRows sample w = ground arith

  read_round-Delivers :
      (sent : List DataRow) (again : Bool → ReadState → Outcome) (r : Round) (x : Received)
      (blocked : Bool)
      → ((b : Bool) → Goes sent (again b))
      → Goes (with_event x sent) (read_round env again r x blocked)
  unfolding read_round
  read_round-Delivers sent again r x true go s h = on_recv-Delivers sent again r x go s h
  read_round-Delivers sent again r x false go s h =
      later-Delivers s (record s { worker = (hard_rss_limit_exceeded r.rss s.worker).1 })
        (with_event x sent) _ refl (sampled-SameRows r.rss s.worker)
        (by_limit-Delivers sent again r x s (hard_rss_limit_exceeded r.rss s.worker) go
          (hard_rss_limit_exceeded-Reading r.rss s.worker h))

  read_trace-Delivers : (t : Trace) (blocked : Bool) → Goes (rows_sent t) (read_trace env t blocked)
  unfolding read_trace no_more
  read_trace-Delivers (hangs_up r) blocked s h =
      read_round-Delivers [] (no_more env) r disconnected blocked (λ b. reader_gone-Delivers []) s h
  read_trace-Delivers (round r (event e) rest) blocked s h =
      read_round-Delivers (rows_sent rest) (read_trace env rest) r (event e) blocked
        (read_trace-Delivers rest) s h
  read_trace-Delivers (round r timed_out rest) blocked s h =
      read_round-Delivers (rows_sent rest) (read_trace env rest) r timed_out blocked
        (read_trace-Delivers rest) s h
  read_trace-Delivers (round r disconnected rest) blocked s h =
      read_round-Delivers (rows_sent rest) (read_trace env rest) r disconnected blocked
        (read_trace-Delivers rest) s h

-- However a read by a worker that holds its pipe goes, the sink has taken rows of the child in the
-- order in which they were sent, from the first on, none twice and none left out; the counters of
-- rows and of payload bytes have moved by exactly these rows, in saturating steps. When the read
-- returns a response, the sink has taken every row that the child sent before it; when it fails,
-- it has taken some first part of them.
pub read_response_with_events-Delivers :
    (env : ReadEnv) (w : LeanWorker)
    → w.stdout ≡ true
    → IsCoherent w
    → Delivers (begin_read env w) (rows_sent env.trace) (read_response_with_events env w)
unfolding read_response_with_events begin_read
read_response_with_events-Delivers env w held c = by_pipe w.stdout held
  where
    by_pipe :
        (b : Bool)
        → b ≡ true
        → Delivers (begin_read env w) (rows_sent env.trace) (
            if b
            then read_trace env env.trace false (begin_read env w)
            else (err (dead_error w), record { worker = w; waits = 0; reports = [] }))
    by_pipe true e =
        read_trace-Delivers env (begin_read env w).worker env.trace false (begin_read env w)
          (Reading-refl _ c)
    by_pipe false e = cc
