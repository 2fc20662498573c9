-- ===== src/Supervisor/Admission/Prepared.antt =====
-- The child that receives a request once `prepare_request` of
-- crates/lean-rs-worker-parent/src/supervisor.rs has let it through.
use lean_rs.Common.{
  ℕ, ◌≡◌, refl, ◌∙◌, ◌⊎◌, inl, Bool, true, false, Option, none, some, [], arith, if_rule,
}
use lean_rs.Supervisor.Types.{LeanWorkerExit, LeanWorkerRestartReason, Result, ok, err}
use lean_rs.Supervisor.Policy.{fresh_budget}
use lean_rs.Supervisor.Policy.Room.{
  IsClamped, HasRoom, HasImportRoom, fresh-HasRoom, request_limit_reached-Under,
  import_limit_reached-HasImportRoom,
}
use lean_rs.Supervisor.Worker.{
  LeanWorker, Method, then_call, ensure_running, child_rss_kib, Poll, status_given,
  rejects_new_requests, require_running,
}
use lean_rs.Supervisor.Frame.{IsCoherent}
use lean_rs.Supervisor.Restart.{RestartEnv, restart_with_reason}
use lean_rs.Supervisor.Restart.Outcome.{Restarts, restart_with_reason-Restarts}
use lean_rs.Supervisor.Admission.{
  AdmissionEnv, count_attempt, count_admitted, restart_and_admit, noting_rss, or_restart,
  import_reason, check_idle, check_rss, check_limits, prepare_request,
}

-- The call went on with the same child, whose budget has room, or it put a fresh one in its place.
pub data Prepared (import_like : Bool) (w w' : LeanWorker) : Type 0 where
  kept :
      w'.budget ≡ w.budget
      → w'.pending_restart ≡ w.pending_restart
      → w'.config ≡ w.config
      → w'.stats.restarts ≡ w.stats.restarts
      → w'.open_session_keys ≡ w.open_session_keys
      → HasRoom import_like w.budget w.config.restart_policy
      → IsCoherent w'
      → Prepared import_like w w'
  replaced :
      w'.budget ≡ fresh_budget
      → w'.pending_restart ≡ none
      → w'.config ≡ w.config
      → w'.open_session_keys ≡ []
      → IsCoherent w'
      → Prepared import_like w w'

-- A failed admission: no request goes out, and the budget is as it was or fresh.
pub record IsRefused (w w' : LeanWorker) : Type 0 where
  pub budget : (w'.budget ≡ w.budget) ⊎ (w'.budget ≡ fresh_budget)
  pub config : w'.config ≡ w.config

abbrev pub Prepares : Bool → LeanWorker → Result (Unit {0}) × LeanWorker → Type 0
Prepares import_like w (ok a, w') = Prepared import_like w w'
Prepares import_like w (err e, w') = IsRefused w w'

-- The worker before the checks, as far as they read it.
record IsSame (u w : LeanWorker) : Type 0 where
  budget : w.budget ≡ u.budget
  pending : w.pending_restart ≡ u.pending_restart
  config : w.config ≡ u.config
  restarts : w.stats.restarts ≡ u.stats.restarts
  keys : w.open_session_keys ≡ u.open_session_keys
  coherent : IsCoherent w

count_admitted-replaced :
    (import_like : Bool) (u v : LeanWorker)
    → v.budget ≡ fresh_budget
    → v.pending_restart ≡ none
    → v.config ≡ u.config
    → v.open_session_keys ≡ []
    → IsCoherent v
    → Prepares import_like u (count_admitted import_like v)
unfolding count_admitted
count_admitted-replaced false u v a b c d e = replaced a b c d e
count_admitted-replaced true u v a b c d e = replaced a b c d e

count_admitted-kept :
    (import_like : Bool) (u v : LeanWorker)
    → IsSame u v
    → HasRoom import_like u.budget u.config.restart_policy
    → Prepares import_like u (count_admitted import_like v)
unfolding count_admitted
count_admitted-kept false u v s h = kept s.budget s.pending s.config s.restarts s.keys h s.coherent
count_admitted-kept true u v s h = kept s.budget s.pending s.config s.restarts s.keys h s.coherent

restart_and_admit-Prepares :
    (import_like : Bool) (env : RestartEnv) (reason : LeanWorkerRestartReason) (u w : LeanWorker)
    (r : Result (Unit {0}) × LeanWorker)
    → IsSame u w
    → Restarts reason env w r
    → Prepares import_like u (then_call (λ _. count_admitted import_like) r)
restart_and_admit-Prepares import_like env reason u w (ok a, v) s h =
    count_admitted-replaced import_like u v h.budget h.settled (h.config ∙ s.config) h.forgotten
      h.coherent
restart_and_admit-Prepares import_like env reason u w (err e, v) s h = record {
  budget = ground arith;
  config = h.config ∙ s.config;
}

or_restart-Prepares :
    (import_like : Bool) (env : RestartEnv) (reason : Option LeanWorkerRestartReason)
    (next : Method (Unit {0})) (u w : LeanWorker)
    → IsSame u w
    → (reason ≡ none → Prepares import_like u (next w))
    → Prepares import_like u (or_restart import_like env reason next w)
unfolding or_restart restart_and_admit
or_restart-Prepares import_like env none next u w s h = h refl
or_restart-Prepares import_like env (some reason) next u w s h =
    restart_and_admit-Prepares import_like env reason u w (restart_with_reason reason env w) s
      (restart_with_reason-Restarts reason env w s.coherent)

check_idle-Prepares :
    (import_like : Bool) (env : AdmissionEnv) (u w : LeanWorker)
    → IsSame u w
    → HasRoom import_like u.budget u.config.restart_policy
    → Prepares import_like u (check_idle import_like env w)
unfolding check_idle
check_idle-Prepares import_like env u w s h =
    or_restart-Prepares import_like env.restart _ (count_admitted import_like) u w s
      (λ _. count_admitted-kept import_like u w s h)

noting_rss-IsSame :
    (limit sample : Option ℕ) (u w : LeanWorker) → IsSame u w → IsSame u (noting_rss limit sample w)
unfolding noting_rss
noting_rss-IsSame none sample u w s = s
noting_rss-IsSame (some limit) none u w s = record {
  budget = s.budget;
  pending = s.pending;
  config = s.config;
  restarts = s.restarts;
  keys = s.keys;
  coherent = s.coherent;
}
noting_rss-IsSame (some limit) (some kib) u w s = record {
  budget = s.budget;
  pending = s.pending;
  config = s.config;
  restarts = s.restarts;
  keys = s.keys;
  coherent = s.coherent;
}

check_rss-Prepares :
    (import_like : Bool) (env : AdmissionEnv) (u w : LeanWorker)
    → IsSame u w
    → HasRoom import_like u.budget u.config.restart_policy
    → Prepares import_like u (check_rss import_like env w)
unfolding check_rss
check_rss-Prepares import_like env u w s h =
    or_restart-Prepares import_like env.restart _ (check_idle import_like env) u _ noted
      (λ _. check_idle-Prepares import_like env u _ noted h)
  where
    noted : IsSame u (noting_rss w.config.restart_policy.max_rss_kib (child_rss_kib w env.rss) w)
    noted = noting_rss-IsSame _ _ u w s

import_reason-HasImportRoom :
    (import_like : Bool) (w : LeanWorker)
    → import_reason import_like w ≡ none
    → import_like ≡ true
    → HasImportRoom w.budget w.config.restart_policy
unfolding import_reason
import_reason-HasImportRoom false w h e = cc
import_reason-HasImportRoom true w h e = import_limit_reached-HasImportRoom _ _ h

check_limits-Prepares :
    (import_like : Bool) (env : AdmissionEnv) (u w : LeanWorker)
    → IsSame u w
    → Prepares import_like u (check_limits import_like env w)
unfolding check_limits
check_limits-Prepares import_like env u w s =
    or_restart-Prepares import_like env.restart _ _ u w s λ a.
      or_restart-Prepares import_like env.restart _ (check_rss import_like env) u w s λ b.
        check_rss-Prepares import_like env u w s (
          rw (← s.budget, ← s.config)
            (record {
              requests = request_limit_reached-Under w.budget w.config.restart_policy _ refl a;
              imports = import_reason-HasImportRoom import_like w b;
            }))

count_attempt-Prepares :
    (import_like : Bool) (sample : Option ℕ) (env : AdmissionEnv) (u w : LeanWorker)
    → IsSame u w
    → Prepares import_like u
        (then_call (λ _. check_limits import_like env) (count_attempt import_like sample w))
unfolding count_attempt
count_attempt-Prepares false sample env u w s = check_limits-Prepares false env u w s
count_attempt-Prepares true sample env u w s = check_limits-Prepares true env u _ (record {
  budget = s.budget;
  pending = s.pending;
  config = s.config;
  restarts = s.restarts;
  keys = s.keys;
  coherent = s.coherent;
})

-- A child that is running is as it was; otherwise no request goes out.
abbrev pub Runs : LeanWorker → Result (Unit {0}) × LeanWorker → Type 0
Runs u (ok a, w) = w ≡ u
Runs u (err e, w) = IsRefused u w

ensure_given-Runs :
    (u : LeanWorker) (x : Option LeanWorkerExit) (c : Option ℕ) (poll : Poll)
    → Runs u (then_call require_running (status_given x c poll u))
unfolding status_given require_running
ensure_given-Runs u (some exit) c poll = record { budget = inl refl; config = refl }
ensure_given-Runs u none none poll = record { budget = inl refl; config = refl }
ensure_given-Runs u none (some pid) Poll.running = refl
ensure_given-Runs u none (some pid) (Poll.wait_fails e) = record {
  budget = inl refl;
  config = refl;
}
ensure_given-Runs u none (some pid) (Poll.exits s text) = record {
  budget = inl refl;
  config = refl;
}

pub ensure_running-Runs : (poll : Poll) (u : LeanWorker) → Runs u (ensure_running poll u)
unfolding ensure_running
ensure_running-Runs poll u =
    if_rule (Runs u) (rejects_new_requests u.state) (record { budget = inl refl; config = refl })
      (ensure_given-Runs u u.last_exit u.child poll)

prepare_after :
    (import_like : Bool) (env : AdmissionEnv) (u : LeanWorker) (r : Result (Unit {0}) × LeanWorker)
    → IsCoherent u
    → Runs u r
    → Prepares import_like u (
        then_call
          (λ _ w.
            then_call
              (λ _. check_limits import_like env)
              (count_attempt import_like env.rss_before w))
          r)
prepare_after import_like env u (ok a, w) c e = rw e (
    count_attempt-Prepares import_like env.rss_before env u u (record {
      budget = refl;
      pending = refl;
      config = refl;
      restarts = refl;
      keys = refl;
      coherent = c;
    }))
prepare_after import_like env u (err e, w) c h = h

pub prepare_request-Prepares :
    (import_like : Bool) (env : AdmissionEnv) (w : LeanWorker)
    → IsCoherent w
    → Prepares import_like w (prepare_request import_like env w)
unfolding prepare_request
prepare_request-Prepares import_like env w c =
    prepare_after import_like env w (ensure_running env.poll w) c (ensure_running-Runs env.poll w)

-- The budget of the child that the request would enter.
abbrev pub Admits : Bool → Result (Unit {0}) × LeanWorker → Type 0
Admits import_like (ok a, w) = HasRoom import_like w.budget w.config.restart_policy
Admits import_like (err e, w) = Unit {0}

Prepares-Admits :
    (import_like : Bool) (w : LeanWorker) (r : Result (Unit {0}) × LeanWorker)
    → IsClamped w.config.restart_policy
    → Prepares import_like w r
    → Admits import_like r
Prepares-Admits import_like w (ok a, v) c (kept b p e s k h x) = rw (b, e) h
Prepares-Admits import_like w (ok a, v) c (replaced b p e k x) =
    rw (b, e) (fresh-HasRoom import_like w.config.restart_policy c)
Prepares-Admits import_like w (err e, v) c h = tt

-- Whatever the child, its RSS and the clock do: when an admission returns `Ok`, the child that will
-- receive the request has served fewer requests than `max_requests`, and before an import-like
-- request also fewer imports than `max_imports` and fewer residue bytes than their limit.
pub prepare_request-Admits :
    (import_like : Bool) (env : AdmissionEnv) (w : LeanWorker)
    → IsClamped w.config.restart_policy
    → IsCoherent w
    → Admits import_like (prepare_request import_like env w)
prepare_request-Admits import_like env w c h =
    Prepares-Admits import_like w _ c (prepare_request-Prepares import_like env w h)
