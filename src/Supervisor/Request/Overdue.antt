-- ===== src/Supervisor/Request/Overdue.antt =====
-- The deadline of a request in the event loop of crates/lean-rs-worker-parent/src/supervisor.rs:
-- before it, at it and after it.
use lean_rs.Common.{
  ℕ, ◌+◌, ◌-◌, ◌≤◌, ◌<◌, ◌≡◌, refl, ◌∙◌, Bool, true, false, Option, none, some, List, [], ◌∷◌, leb,
  le→leb, arith, ◌==◌, if◌then◌else◌,
}
use lean_rs.Common.Options
use lean_rs.Supervisor.Worker.{LeanWorker}
use lean_rs.Supervisor.Stream.{hard_rss_limit_exceeded, over_limit}
use lean_rs.Supervisor.Request.{
  timed_out, Received, Round, Trace, round, ReadEnv, ReadState, Outcome, time_out, on_recv,
  on_recv_timeout, by_remaining, by_limit, checked_duration_since, checked_add, read_round,
  read_trace,
}

-- Rounds in which nothing arrives, before `rest`.
abbrev pub silence : List Round → Trace → Trace
silence [] rest = rest
silence (r ∷ rs) rest = round r timed_out (silence rs rest)

silence-waits :
    (env : ReadEnv) (rs : List Round) (rest : Trace) (s : ReadState)
    → read_trace env (silence rs rest) true s ≡ read_trace env rest true s
unfolding read_trace read_round on_recv
silence-waits env [] rest s = refl
silence-waits env (r ∷ rs) rest s = silence-waits env rs rest s

late_test : (now deadline : ℕ) → deadline < now → leb now deadline ≡ false
late_test now deadline h = ground arith

unsampled :
    (limit sample : Option ℕ) (w : LeanWorker)
    → limit ≡ none
    → over_limit limit sample w ≡ (none, w)
unfolding over_limit
unsampled none sample w e = refl
unsampled (some k) sample w e = cc

module _ (env : ReadEnv) (s : ReadState) (unwatched : s.worker.config.rss_hard_limit_kib ≡ none)
    (fits : env.started + s.worker.config.request_timeout ≤ env.instant_max) where
  unwatched_round :
      (again : Bool → ReadState → Outcome) (r : Round) (x : Received)
      → read_round env again r x false s
        ≡ by_remaining env again r x
            (checked_duration_since r.now (some (env.started + s.worker.config.request_timeout)))
            s
  unfolding read_round by_limit hard_rss_limit_exceeded checked_add
  unwatched_round again r x =
      rw (unsampled s.worker.config.rss_hard_limit_kib r.rss s.worker unwatched)
        (rw (le→leb _ _ fits) refl)

  in_time :
      (again : Bool → ReadState → Outcome) (r : Round)
      → r.now ≤ env.started + s.worker.config.request_timeout
      → by_remaining env again r timed_out
          (checked_duration_since r.now (some (env.started + s.worker.config.request_timeout)))
          s
        ≡ time_out env r s
  unfolding checked_duration_since by_remaining on_recv_timeout
  in_time again r early =
      rw (le→leb _ _ early)
        (receives _ (env.started + s.worker.config.request_timeout - r.now == 0))
    where
      watched : (limit : Option ℕ) → limit ≡ none → Options.is_some limit ≡ false
      watched none e = refl
      watched (some k) e = cc

      receives :
          (remaining : ℕ) (b : Bool)
          → (if b then time_out env r s else on_recv_timeout env again r remaining timed_out s)
            ≡ time_out env r s
      receives remaining true = refl
      receives remaining false = rw (watched _ unwatched) refl

  too_late :
      (r : Round) (rest : Trace) (rs : List Round)
      → env.started + s.worker.config.request_timeout < r.now
      → by_remaining env
          (read_trace env (silence rs rest))
          r
          timed_out
          (checked_duration_since r.now (some (env.started + s.worker.config.request_timeout)))
          s
        ≡ read_trace env rest true s
  unfolding checked_duration_since by_remaining on_recv
  too_late r rest rs late = rw (late_test r.now _ late) (silence-waits env rs rest s)

  -- A receive that gives nothing, in a request without a hard limit on memory: up to the deadline it
  -- times the request out and replaces the child; once the deadline is past, no silence, however
  -- long, ends the wait, which goes on until the next event.
  pub timed_out-Deadline :
      (r : Round) (rest : Trace)
      → (r.now ≤ env.started + s.worker.config.request_timeout
          → read_trace env (round r timed_out rest) false s ≡ time_out env r s)
        × (env.started + s.worker.config.request_timeout < r.now
            → (rs : List Round)
            → read_trace env (round r timed_out (silence rs rest)) false s
              ≡ read_trace env rest true s)
  unfolding read_trace
  timed_out-Deadline r rest = (
    λ early.
        unwatched_round (read_trace env rest) r timed_out ∙ in_time (read_trace env rest) r early,
    λ late rs.
        unwatched_round (read_trace env (silence rs rest)) r timed_out ∙ too_late r rest rs late,
  )
