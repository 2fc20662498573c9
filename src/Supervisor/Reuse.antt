-- ===== src/Supervisor/Reuse.antt =====
-- crates/lean-rs-worker-parent/src/supervisor.rs: opening a host session, and the list of the sessions
-- that the child is believed to hold.
pub mod Bound
pub mod Recent
pub mod Opened
use lean_rs.Common.{
  ℕ, zero, suc, ◌-◌, max, String, Bool, true, false, not, ◌&&◌, Option, none, some, List, [], ◌∷◌,
  ◌++◌, length, ltb, ◌==◌, sat_inc, if◌then◌else◌,
}
use lean_rs.Common.Options
use lean_rs.Common.Equality.{Eq, ◌=?◌, option_eq}
use lean_rs.Protocol.Message.{
  LeanWorkerImportStats, Response, host_session_opened, host_session_reused,
}
use lean_rs.Supervisor.Types.{
  LeanWorkerRestartReason, LeanWorkerError, protocol, lit, response_debug, Result, ok, err,
}
use lean_rs.Supervisor.Policy.{import_limit_reached}
use lean_rs.Supervisor.Stats.{LeanWorkerStats, LeanWorkerReplacementTiming}
use lean_rs.Supervisor.Session.{LeanWorkerSessionConfig, session_config_eq}
use lean_rs.Supervisor.Worker.{
  LeanWorker, LeanWorkerConfig, Method, ◌>>=◌, ◌>>◌, pure, Poll, ensure_running, then_call,
}
use lean_rs.Supervisor.Shutdown.{write_request}
use lean_rs.Supervisor.Request.{ReadEnv, read_response}
use lean_rs.Supervisor.Restart.{RestartEnv, restart_with_reason}
use lean_rs.Supervisor.Admission.{
  AdmissionEnv, check_cancelled, prepare_request, record_request, record_import,
}

-- `LeanWorkerConfig::resolved_session_pool_capacity`; a `u64` fits a `usize`.
unfoldable pub resolved_session_pool_capacity : LeanWorkerConfig → Option ℕ
resolved_session_pool_capacity c =
    Options.or_else c.session_pool_capacity c.restart_policy.max_imports

abbrev pub default_reuse_hint_capacity : ℕ
default_reuse_hint_capacity = 4

unfoldable pub reuse_hint_capacity : LeanWorkerConfig → ℕ
unfolding resolved_session_pool_capacity
reuse_hint_capacity c =
    max (Options.get_or (resolved_session_pool_capacity c) default_reuse_hint_capacity) 1

module _ {A : Type 0} ⦃e : Eq A⦄ where
  unfoldable pub holds : A → List A → Bool
  holds k [] = false
  holds k (x ∷ xs) = if x =? k then true else holds k xs

  -- `remove` at the position of the first equal key.
  unfoldable pub remove_key : A → List A → List A
  remove_key k [] = []
  remove_key k (x ∷ xs) = if x =? k then xs else x ∷ remove_key k xs

-- `while len > capacity { remove(0) }`, which makes `excess` rounds.
unfoldable pub drop_front : {A : Type 0} → ℕ → List A → List A
drop_front zero keys = keys
drop_front (suc n) [] = []
drop_front (suc n) (x ∷ xs) = drop_front n xs

-- The keys with `k` at the back, the most recently used end.
unfoldable pub touch_key : {A : Type 0} ⦃e : Eq A⦄ → ℕ → A → List A → List A
unfolding holds remove_key drop_front
touch_key capacity k keys =
    if holds k keys
    then remove_key k keys ++ k ∷ []
    else drop_front (length (keys ++ k ∷ []) - capacity) (keys ++ k ∷ [])

-- `LeanWorker::note_open_session_key`.
unfoldable pub note_open_session_key : LeanWorkerSessionConfig → LeanWorker → LeanWorker
unfolding touch_key reuse_hint_capacity
note_open_session_key k w = record w {
  open_session_keys = touch_key (reuse_hint_capacity w.config) k w.open_session_keys;
}

pub last_key : List LeanWorkerSessionConfig → Option LeanWorkerSessionConfig
last_key [] = none
last_key (x ∷ []) = some x
last_key (x ∷ y ∷ ys) = last_key (y ∷ ys)

-- What one open observes: the cancellation token, the deferred restart's replacement, the
-- admission, the child at the write, the error of the written frame, the clock when the request is
-- recorded, the wait for the answer, and the time that the exchange took.
pub record OpenEnv : Type 0 where
  pub cancelled : Bool
  pub deferred : RestartEnv
  pub admission : AdmissionEnv
  pub poll : Poll
  pub write : Option String
  pub now : ℕ
  pub answer : ReadEnv
  pub elapsed : ℕ

-- The deferred restart, if there is one; it is taken first.
take_reason : RestartEnv → Option LeanWorkerRestartReason → Method (Unit {0})
take_reason env none w = (ok tt, w)
take_reason env (some reason) w =
    restart_with_reason reason env (record w { pending_restart = none })

take_pending : RestartEnv → Method (Unit {0})
unfolding take_reason
take_pending env w = take_reason env w.pending_restart w

set_open_timing : Bool → ℕ → Option LeanWorkerReplacementTiming → Option LeanWorkerReplacementTiming
set_open_timing false elapsed timing = timing
set_open_timing true elapsed timing =
    Options.map (λ (t : LeanWorkerReplacementTiming). record t { session_open_import = elapsed })
      timing

stale_binary : Bool → LeanWorkerSessionConfig → LeanWorker → Bool
unfolding last_key
stale_binary expect_reuse k w =
    expect_reuse && not w.reuse_observed && (last_key w.open_session_keys =? some k)

-- The answer `HostSessionOpened`: the child imported, whatever was expected.
unfoldable pub on_opened :
    LeanWorkerSessionConfig → Bool → ℕ → ℕ → LeanWorkerImportStats → LeanWorker → LeanWorker
unfolding stale_binary set_open_timing note_open_session_key record_import
on_opened k expect_reuse before_restarts elapsed stats w =
    let hint = if stale_binary expect_reuse k w then false else w.reuse_hint_enabled in
    let w1 = record_import stats (record w { reuse_hint_enabled = hint }) in
    let pending =
      if expect_reuse
      then import_limit_reached w1.budget w1.config.restart_policy
      else w1.pending_restart in
    note_open_session_key k (record w1 {
      pending_restart = pending;
      stats = record w1.stats {
        last_session_open_import_elapsed = some elapsed;
        last_replacement_timing =
            set_open_timing (ltb before_restarts w1.stats.restarts) elapsed
              w1.stats.last_replacement_timing;
        last_import_stats = some stats;
      };
    })

-- The answer `HostSessionReused`: no import happened.
unfoldable pub on_reused : LeanWorkerSessionConfig → LeanWorkerImportStats → LeanWorker → LeanWorker
unfolding note_open_session_key
on_reused k stats w =
    note_open_session_key k (record w {
      reuse_observed = true;
      stats = record w.stats { last_import_stats = some stats };
    })

forget_keys : LeanWorker → LeanWorker
forget_keys w = record w { open_session_keys = [] }

unfoldable pub on_answer :
    LeanWorkerSessionConfig
    → Bool
    → ℕ
    → ℕ
    → Result Response × LeanWorker
    → Result (Unit {0}) × LeanWorker
unfolding on_opened on_reused forget_keys
on_answer k expect_reuse before_restarts elapsed (err e, w) = (err e, forget_keys w)
on_answer k expect_reuse before_restarts elapsed (ok (host_session_opened stats), w) =
    (ok tt, on_opened k expect_reuse before_restarts elapsed stats w)
on_answer k expect_reuse before_restarts elapsed (ok (host_session_reused stats), w) =
    (ok tt, on_reused k stats w)
on_answer k expect_reuse before_restarts elapsed (ok answer, w) = (
  err (
      protocol
        (lit "worker sent unexpected open_worker_session response: " ∷ response_debug answer ∷ [])),
  forget_keys w,
)

pub exchange : LeanWorkerSessionConfig → Bool → ℕ → OpenEnv → Method (Unit {0})
unfolding on_answer
exchange k expected before_restarts env w =
    let expect_reuse = expected && (w.stats.restarts == before_restarts) in
    (do
      ensure_running env.poll
      write_request env.write
      λ v.
          on_answer k expect_reuse before_restarts env.elapsed
            (read_response env.answer (record_request false env.now v)))
      w

admit_open : LeanWorkerSessionConfig → ℕ → OpenEnv → Method (Unit {0})
unfolding exchange
admit_open k before_restarts env w =
    let expected = w.reuse_hint_enabled && holds k w.open_session_keys in
    (do prepare_request (not expected) env.admission; exchange k expected before_restarts env) w

-- `LeanWorker::open_worker_session`.
unfoldable pub open_worker_session : LeanWorkerSessionConfig → OpenEnv → Method (Unit {0})
unfolding take_pending admit_open
open_worker_session k env w =
    (do
      check_cancelled "open_worker_session" env.cancelled
      take_pending env.deferred
      admit_open k w.stats.restarts env)
      w
