-- ===== src/Supervisor/Frame.antt =====
-- crates/lean-rs-worker-parent/src/supervisor.rs: what a shutdown may not touch, and the predicates
-- on the result of a call that say so.
use lean_rs.Common.{◌≡◌, refl, ◌∙◌, ◌⊎◌, Bool, none}
use lean_rs.Supervisor.Types.{Result, ok, err}
use lean_rs.Supervisor.Stats.{stream_counts}
use lean_rs.Supervisor.Worker
use lean_rs.Supervisor.Worker.{LeanWorker, Method, then_call}

-- An exit is on record only of a child that has been let go.
abbrev pub IsCoherent : LeanWorker → Type 0
IsCoherent w = (w.last_exit ≡ none) ⊎ (w.child ≡ none)

-- What only a restart changes.
pub record Frame (w w' : LeanWorker) : Type 0 where
  pub config : w'.config ≡ w.config
  pub budget : w'.budget ≡ w.budget
  pub generation : w'.generation ≡ w.generation
  pub next_request_id : w'.next_request_id ≡ w.next_request_id
  pub restart_window : w'.restart_window ≡ w.restart_window
  pub restarts : w'.stats.restarts ≡ w.stats.restarts
  pub pending : w'.pending_restart ≡ w.pending_restart
  pub attempts : w'.stats.replacement_attempts ≡ w.stats.replacement_attempts
  pub successes : w'.stats.replacement_successes ≡ w.stats.replacement_successes
  pub failures : w'.stats.replacement_failures ≡ w.stats.replacement_failures
  pub streams : stream_counts w'.stats ≡ stream_counts w.stats
  pub coherent : IsCoherent w → IsCoherent w'

pub Frame-refl : (w : LeanWorker) → Frame w w
Frame-refl w = record {
  config = refl;
  budget = refl;
  generation = refl;
  next_request_id = refl;
  restart_window = refl;
  restarts = refl;
  pending = refl;
  attempts = refl;
  successes = refl;
  failures = refl;
  streams = refl;
  coherent = λ c. c;
}

pub Frame-trans : {u v w : LeanWorker} → Frame u v → Frame v w → Frame u w
Frame-trans f g = record {
  config = g.config ∙ f.config;
  budget = g.budget ∙ f.budget;
  generation = g.generation ∙ f.generation;
  next_request_id = g.next_request_id ∙ f.next_request_id;
  restart_window = g.restart_window ∙ f.restart_window;
  restarts = g.restarts ∙ f.restarts;
  pending = g.pending ∙ f.pending;
  attempts = g.attempts ∙ f.attempts;
  successes = g.successes ∙ f.successes;
  failures = g.failures ∙ f.failures;
  streams = g.streams ∙ f.streams;
  coherent = λ c. g.coherent (f.coherent c);
}

-- No live child, and the state says so.
pub record IsGone (w : LeanWorker) : Type 0 where
  pub child : w.child ≡ none
  pub state : w.state ≡ Worker.WorkerSupervisorState.exited w.generation

-- After the call the frame is as before it; on success there is also no child left.
abbrev pub Keeps {ℓ} : {A : Type ℓ} → LeanWorker → Result A × LeanWorker → Type 0
Keeps w (r, w') = Frame w w'

abbrev pub Ends {ℓ} : {A : Type ℓ} → LeanWorker → Result A × LeanWorker → Type 0
Ends w (ok a, w') = Frame w w' × IsGone w'
Ends w (err e, w') = Frame w w' × Unit {0}

pub then_call-Ends {ℓ κ} :
    {A : Type ℓ} {B : Type κ} (u : LeanWorker) (f : A → Method B) (r : Result A × LeanWorker)
    → Keeps u r
    → ((a : A) (w : LeanWorker) → Frame u w → Ends u (f a w))
    → Ends u (then_call f r)
then_call-Ends u f (ok a, w) k h = h a w k
then_call-Ends u f (err e, w) k h = (k, tt)

pub restate :
    {u w : LeanWorker} (s : Worker.WorkerSupervisorState)
    → Frame u w
    → Frame u (record w { state = s })
restate s f = record {
  config = f.config;
  budget = f.budget;
  generation = f.generation;
  next_request_id = f.next_request_id;
  restart_window = f.restart_window;
  restarts = f.restarts;
  pending = f.pending;
  attempts = f.attempts;
  successes = f.successes;
  failures = f.failures;
  streams = f.streams;
  coherent = f.coherent;
}

pub reopen : {u w : LeanWorker} (b : Bool) → Frame u w → Frame u (record w { stdout = b })
reopen b f = record {
  config = f.config;
  budget = f.budget;
  generation = f.generation;
  next_request_id = f.next_request_id;
  restart_window = f.restart_window;
  restarts = f.restarts;
  pending = f.pending;
  attempts = f.attempts;
  successes = f.successes;
  failures = f.failures;
  streams = f.streams;
  coherent = f.coherent;
}
