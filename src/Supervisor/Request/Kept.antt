-- ===== src/Supervisor/Request/Kept.antt =====
-- What a round that does not return may change: the event loop of
-- crates/lean-rs-worker-parent/src/supervisor.rs between two receives.
use lean_rs.Common.{ℕ, ◌≡◌, refl, ◌∙◌, Option, none, some, arith}
use lean_rs.Protocol.Message.{DataRow}
use lean_rs.Supervisor.Frame.{IsCoherent}
use lean_rs.Supervisor.Worker.{
  LeanWorker, WorkerSupervisorState, current_request_id, mark_current_request_streaming,
  mark_streaming, finish_state, child_rss_kib,
}
use lean_rs.Supervisor.Stream.{hard_rss_limit_exceeded, over_limit, sample_over}
use lean_rs.Supervisor.Request.{ReadEnv, ReadState, count_row, count_waits, hold_stdout}

-- The request that was in flight still is, under the same generation, and no stream has ended.
pub record Reading (u w : LeanWorker) : Type 0 where
  pub config : w.config ≡ u.config
  pub budget : w.budget ≡ u.budget
  pub generation : w.generation ≡ u.generation
  pub next_request_id : w.next_request_id ≡ u.next_request_id
  pub pending : w.pending_restart ≡ u.pending_restart
  pub coherent : IsCoherent w
  pub request : current_request_id w.state ≡ current_request_id u.state
  pub successes : w.stats.stream_successes ≡ u.stats.stream_successes
  pub failures : w.stats.stream_failures ≡ u.stats.stream_failures

pub Reading-refl : (u : LeanWorker) → IsCoherent u → Reading u u
Reading-refl u c = record {
  config = refl;
  budget = refl;
  generation = refl;
  next_request_id = refl;
  pending = refl;
  coherent = c;
  request = refl;
  successes = refl;
  failures = refl;
}

mark_streaming-id :
    (s : WorkerSupervisorState) → current_request_id (mark_streaming s) ≡ current_request_id s
unfolding mark_streaming current_request_id
mark_streaming-id (WorkerSupervisorState.busy r) = refl
mark_streaming-id (WorkerSupervisorState.streaming r) = refl
mark_streaming-id _ = refl

pub finish_state-quiet :
    (g : ℕ) (s : WorkerSupervisorState) → current_request_id (finish_state g s) ≡ none
unfolding finish_state current_request_id
finish_state-quiet g (WorkerSupervisorState.busy r) = refl
finish_state-quiet g (WorkerSupervisorState.streaming r) = refl
finish_state-quiet g _ = refl

module _ {u : LeanWorker} where
  pub mark_streaming-Reading :
      (w : LeanWorker) → Reading u w → Reading u (mark_current_request_streaming w)
  unfolding mark_current_request_streaming
  mark_streaming-Reading w h = record {
    config = h.config;
    budget = h.budget;
    generation = h.generation;
    next_request_id = h.next_request_id;
    pending = h.pending;
    coherent = h.coherent;
    request = mark_streaming-id w.state ∙ h.request;
    successes = h.successes;
    failures = h.failures;
  }

  pub count_waits-Reading :
      (env : ReadEnv) (n : ℕ) (s : ReadState)
      → Reading u s.worker
      → Reading u (count_waits env n s).worker
  unfolding count_waits
  count_waits-Reading env n s h = ground arith

  pub count_row-Reading :
      (env : ReadEnv) (row : DataRow) (s : ReadState)
      → Reading u s.worker
      → Reading u (count_row env row s).worker
  unfolding count_row
  count_row-Reading env row s h = ground arith

  pub hold_stdout-Reading :
      (env : ReadEnv) (s : ReadState) → Reading u s.worker → Reading u (hold_stdout env s).worker
  hold_stdout-Reading env s h = ground arith

  sample_over-Reading :
      (limit : ℕ) (sample : Option ℕ) (w : LeanWorker)
      → Reading u w
      → Reading u (sample_over limit sample w).1
  unfolding sample_over
  sample_over-Reading limit none w h = ground arith
  sample_over-Reading limit (some current) w h = ground arith

  over_limit-Reading :
      (limit sample : Option ℕ) (w : LeanWorker)
      → Reading u w
      → Reading u (over_limit limit sample w).1
  unfolding over_limit
  over_limit-Reading none sample w h = h
  over_limit-Reading (some limit) sample w h =
      sample_over-Reading limit (child_rss_kib w sample) w h

  pub hard_rss_limit_exceeded-Reading :
      (sample : Option ℕ) (w : LeanWorker)
      → Reading u w
      → Reading u (hard_rss_limit_exceeded sample w).1
  unfolding hard_rss_limit_exceeded
  hard_rss_limit_exceeded-Reading sample w h =
      over_limit-Reading w.config.rss_hard_limit_kib sample w h
