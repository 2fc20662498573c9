-- ===== src/WorkerChild/Sessions/Agree.antt =====
-- The two ends of a connection: `open_worker_session` of
-- crates/lean-rs-worker-parent/src/supervisor.rs and `open_or_reuse_host_session` of
-- crates/lean-rs-worker-child/src/child.rs.
use lean_rs.Common.{
  ℕ, String, ◌≤◌, ◌≡◌, refl, ◌∙◌, sym, subst, Bool, true, false, List, [], map, arith,
}
use lean_rs.Protocol.Message.{Response, error, host_session_opened, host_session_reused}
use lean_rs.Supervisor.Types.{worker, Result, ok, err}
use lean_rs.Supervisor.Session.{PathBuf, LeanWorkerSessionConfig, session_config_eq}
use lean_rs.Supervisor.Worker.{LeanWorker}
use lean_rs.Supervisor.Reuse.{
  holds, touch_key, on_answer, on_opened, on_reused, note_open_session_key, reuse_hint_capacity,
  resolved_session_pool_capacity,
}
use lean_rs.Supervisor.Reuse.Recent.{IsDistinct}
use lean_rs.WorkerChild.Key.{HostSessionKey, host_key_eq, open_request}
use lean_rs.WorkerChild.Sessions.{
  ChildState, OpenEnv, open_or_reuse_host_session, session_pool_capacity,
}
use lean_rs.WorkerChild.Sessions.Held.{held, IsCurrent}
use lean_rs.WorkerChild.Sessions.Mirror.{Mirrors, IsSteady, open_or_reuse-Mirrors}
use lean_rs.WorkerChild.Sessions.Spelled.{TellsApart, holds-map, touch_key-map}

-- The two ends of a connection agree: the parent remembers exactly what the child holds, which knows
-- its keys by the texts that the parent has sent.
abbrev pub Agree :
    (LeanWorkerSessionConfig → HostSessionKey)
    → Result (Unit {0}) × LeanWorker
    → ChildState
    → Type 0
Agree request (ok a, w) c = held c ≡ map request w.open_session_keys
Agree request (err e, w) c = w.open_session_keys ≡ []

-- The child imports exactly for a key that the parent does not remember.
abbrev pub Imports : LeanWorkerSessionConfig → List LeanWorkerSessionConfig → Response → Type 0
Imports k keys (host_session_opened stats) = holds k keys ≡ false
Imports k keys (host_session_reused stats) = holds k keys ≡ true
Imports k keys r = Unit {0}

-- An answer as the parent's wait hands it on: an error of the child is an error of the call.
abbrev pub received : Response → Result Response
received (error code message) = err (worker code message)
received r = ok r

module _ (request : LeanWorkerSessionConfig → HostSessionKey) (k : LeanWorkerSessionConfig)
    (w : LeanWorker) (apart : TellsApart request k w.open_session_keys) where
  noted-Agree :
      (keys : List HostSessionKey)
      → keys
        ≡ touch_key (reuse_hint_capacity w.config) (request k) (map request w.open_session_keys)
      → keys ≡ map request (touch_key (reuse_hint_capacity w.config) k w.open_session_keys)
  noted-Agree keys m =
      m ∙ touch_key-map request (reuse_hint_capacity w.config) k w.open_session_keys apart

  answered-Agree :
      (expect_reuse : Bool) (before elapsed : ℕ) (r : Response) (c : ChildState)
      → Mirrors (reuse_hint_capacity w.config) (request k) (map request w.open_session_keys) (r, c)
      → Agree request (on_answer k expect_reuse before elapsed (received r, w)) c
        × Imports k w.open_session_keys r
  unfolding on_answer on_opened on_reused note_open_session_key
  answered-Agree e b t (host_session_opened stats) c m =
      (noted-Agree (held c) m.0, sym (holds-map request k w.open_session_keys apart) ∙ m.1)
  answered-Agree e b t (host_session_reused stats) c m =
      (noted-Agree (held c) m.0, sym (holds-map request k w.open_session_keys apart) ∙ m.1)
  answered-Agree e b t _ c m = (refl, tt)

positive : (w : LeanWorker) → 1 ≤ session_pool_capacity (resolved_session_pool_capacity w.config)
unfolding session_pool_capacity
positive w = omega arith

-- A child started by a worker's configuration, the answer of one open, and what the parent makes of
-- it: while the epoch of the extension registry stands still and the two agree before the open, with
-- no key held twice, they agree after it, or the parent has forgotten everything because the open
-- failed; and the child imports exactly when the parent's list does not hold the key. The parent
-- compares paths and the child their texts: it is assumed that each path is written as one text
-- throughout, and that the texts tell the key and the remembered keys apart exactly where these
-- differ.
pub open_session-Agree :
    (path_string : PathBuf → String) (k : LeanWorkerSessionConfig) (env : OpenEnv) (live : ℕ)
    (c : ChildState) (w : LeanWorker) (expect_reuse : Bool) (before_restarts elapsed : ℕ)
    → IsSteady live env
    → IsCurrent live c
    → IsDistinct (held c)
    → held c ≡ map (open_request path_string) w.open_session_keys
    → TellsApart (open_request path_string) k w.open_session_keys
    → let capacity : ℕ = session_pool_capacity (resolved_session_pool_capacity w.config) in
      let (r, c') = open_or_reuse_host_session capacity (open_request path_string k) env c in
      Agree
        (open_request path_string)
        (on_answer k expect_reuse before_restarts elapsed (received r, w))
        c'
      × Imports k w.open_session_keys r
unfolding reuse_hint_capacity session_pool_capacity
open_session-Agree path_string k env live c w expect_reuse before elapsed steady now d agree apart =
    answered-Agree request k w apart expect_reuse before elapsed opened.0 opened.1 (
      subst (λ (keys : List HostSessionKey). Mirrors capacity (request k) keys opened) agree
        (open_or_reuse-Mirrors capacity (request k) env live (positive w) steady c now d))
  where
    request : LeanWorkerSessionConfig → HostSessionKey
    request = open_request path_string

    capacity : ℕ
    capacity = session_pool_capacity (resolved_session_pool_capacity w.config)

    opened : Response × ChildState
    opened = open_or_reuse_host_session capacity (request k) env c
