-- ===== src/HostPool/Acquire.antt =====
-- crates/lean-rs-host/src/host/pool.rs: the memory policy before an import, `acquire_with_profile`,
-- and the release of a session.
pub mod Counted
pub mod Sound
pub mod Taken
pub mod Room
pub mod Outcome
use lean_rs.Common.{
  ℕ, String, Bool, true, false, Option, none, some, List, [], ◌∷◌, ◌++◌, length, ltb, leb, ◌==◌,
  sat_add, sat_inc, if◌then◌else◌,
}
use lean_rs.Common.Options
use lean_rs.HostPool.State.{
  PoolStats, SessionPoolKeyMissReason, stale_environment, SessionPoolKey, PooledEntry, SessionPool,
  take_matching, miss_reason, bump_reused, bump_imported, remember_key, bump_stale_evictions,
  bump_key_miss, bump_fresh_import_refusal, bump_rss_sample, sweep_stale,
}

-- One piece of a formatted message.
pub data Fragment : Type 0 where
  text : String → Fragment
  number : ℕ → Fragment

pub record ResourceExhaustedFacts : Type 0 where
  pub cause : String
  pub work_entered_lean : Bool
  pub current_rss_kib : Option ℕ
  pub limit_kib : Option ℕ
  pub import_count : Option ℕ
  pub import_limit : Option ℕ
  pub requested_imports : Option ℕ
  pub last_import_stats : Option String

-- `LeanError`, as far as the pool makes one; the errors of a session are handed on.
pub data LeanError : Type 0 where
  cancelled : LeanError
  resource_exhausted : List Fragment → ResourceExhaustedFacts → LeanError
  session_error : String → LeanError

pub data LeanResult {ℓ} (A : Type ℓ) : Type ℓ where
  ok : A → LeanResult A
  err : LeanError → LeanResult A

pub record LeanSession : Type 0 where
  pub environment : ℕ
  pub import_stats : String
  pub extension_registry_epoch : ℕ

pub record PooledSession : Type 0 where
  pub key : SessionPoolKey
  pub session : LeanSession

latest_import_stats_diagnostic : SessionPool → List Fragment
latest_import_stats_diagnostic p = elim p.last_import_stats [
  | none ↦ text "last_import_stats=unavailable" ∷ []
  | some stats ↦ text "last_import_stats=available " ∷ text stats ∷ []
]

-- `SessionPool::resource_refusal`.
unfoldable pub resource_refusal :
    String → List Fragment → Option ℕ → Option ℕ → Option ℕ → Option ℕ → ℕ → SessionPool → LeanError
resource_refusal cause message current limit count import_limit requested p =
    resource_exhausted message (record {
      cause = cause;
      work_entered_lean = false;
      current_rss_kib = current;
      limit_kib = limit;
      import_count = count;
      import_limit = import_limit;
      requested_imports = some requested;
      last_import_stats = p.last_import_stats;
    })

refuse_imports : ℕ → ℕ → SessionPool → LeanResult (Unit {0}) × SessionPool
unfolding latest_import_stats_diagnostic
refuse_imports limit requested p = (
  err (
      resource_refusal "same_process_fresh_import_limit"
        (text "same-process SessionPool refused fresh import #"
            ∷ number (sat_inc p.stats.imports_performed)
            ∷ text " for "
            ∷ number requested
            ∷ text " import(s): max_fresh_imports="
            ∷ number limit
            ∷ text "; "
            ∷ latest_import_stats_diagnostic p
          ++ text "; reuse a pooled environment or cycle the worker process" ∷ [])
        none none (some p.stats.imports_performed) (some limit) requested p),
  bump_fresh_import_refusal p,
)

refuse_ceiling : ℕ → ℕ → ℕ → SessionPool → LeanResult (Unit {0}) × SessionPool
unfolding latest_import_stats_diagnostic
refuse_ceiling limit current requested p = (
  err (
      resource_refusal "same_process_rss_ceiling"
        (text "same-process SessionPool refused fresh import for "
            ∷ number requested
            ∷ text " import(s): current RSS "
            ∷ number current
            ∷ text " KiB reached max_rss_kib="
            ∷ number limit
            ∷ text "; "
            ∷ latest_import_stats_diagnostic p
          ++ text "; cycle the worker process to reset Lean process-global import state" ∷ [])
        (some current) (some limit) (some p.stats.imports_performed) none requested p),
  bump_fresh_import_refusal (bump_rss_sample false p),
)

refuse_unsampled : ℕ → ℕ → SessionPool → LeanResult (Unit {0}) × SessionPool
unfolding latest_import_stats_diagnostic
refuse_unsampled limit requested p = (
  err (
      resource_refusal "same_process_rss_sample_unavailable"
        (text "same-process SessionPool refused fresh import for "
          ∷ number requested
          ∷ text " import(s): current RSS sample unavailable while max_rss_kib="
          ∷ number limit
          ∷ text " is configured; "
          ∷ latest_import_stats_diagnostic p)
        none (some limit) (some p.stats.imports_performed) none requested p),
  bump_fresh_import_refusal (bump_rss_sample true p),
)

check_rss_limit : Option ℕ → Option ℕ → ℕ → SessionPool → LeanResult (Unit {0}) × SessionPool
unfolding refuse_ceiling refuse_unsampled
check_rss_limit none rss requested p = (ok tt, p)
check_rss_limit (some limit) none requested p = refuse_unsampled limit requested p
check_rss_limit (some limit) (some current) requested p =
    if leb limit current
    then refuse_ceiling limit current requested p
    else (ok tt, bump_rss_sample false p)

check_import_limit : Option ℕ → Option ℕ → ℕ → SessionPool → LeanResult (Unit {0}) × SessionPool
unfolding refuse_imports check_rss_limit
check_import_limit none rss requested p =
    check_rss_limit p.memory_policy.max_rss_kib rss requested p
check_import_limit (some limit) rss requested p =
    if leb limit p.stats.imports_performed
    then refuse_imports limit requested p
    else check_rss_limit p.memory_policy.max_rss_kib rss requested p

-- `SessionPool::enforce_before_fresh_import`, with the process's RSS sample.
unfoldable pub enforce_before_fresh_import :
    Option ℕ → ℕ → SessionPool → LeanResult (Unit {0}) × SessionPool
unfolding check_import_limit
enforce_before_fresh_import rss requested p =
    check_import_limit p.memory_policy.max_fresh_imports rss requested p

-- What one acquisition observes: the token, the error of rebuilding a session on a pooled
-- environment, the live epoch of the extension registry, the RSS sample, and the imported session.
pub record AcquireEnv : Type 0 where
  pub is_cancelled : Bool
  pub rebuild : Option LeanError
  pub live : Option ℕ
  pub rss : Option ℕ
  pub fresh : LeanResult LeanSession

pub session_of : PooledEntry → LeanSession
session_of e = record {
  environment = e.environment;
  import_stats = e.import_stats;
  extension_registry_epoch = e.extension_registry_epoch;
}

-- The session goes out once the stale entries are swept.
hand_out : SessionPoolKey → LeanSession → SessionPool → LeanResult PooledSession × SessionPool
hand_out k s p = (ok (record { key = k; session = s }), sweep_stale s.extension_registry_epoch p)

import_fresh :
    SessionPoolKey
    → LeanResult LeanSession
    → LeanResult (Unit {0}) × SessionPool
    → LeanResult PooledSession × SessionPool
unfolding hand_out
import_fresh k fresh (err x, p) = (err x, p)
import_fresh k (err x) (ok _, p) = (err x, p)
import_fresh k (ok s) (ok _, p) =
    hand_out k s (bump_imported (record p { last_import_stats = some s.import_stats }))

acquire_fresh : SessionPoolKey → AcquireEnv → SessionPool → LeanResult PooledSession × SessionPool
unfolding import_fresh
acquire_fresh k env p =
    import_fresh k env.fresh (enforce_before_fresh_import env.rss (length k.imports) p)

is_live : Option ℕ → ℕ → Bool
is_live none epoch = false
is_live (some live) epoch = live == epoch

reuse_entry :
    SessionPoolKey
    → AcquireEnv
    → Option LeanError
    → PooledEntry
    → SessionPool
    → LeanResult PooledSession × SessionPool
unfolding hand_out session_of is_live acquire_fresh
reuse_entry k env (some x) e p = (err x, p)
reuse_entry k env none e p =
    if is_live env.live e.extension_registry_epoch
    then hand_out k (session_of e) (bump_reused p)
    else acquire_fresh k env (bump_key_miss stale_environment (bump_stale_evictions 1 p))

acquire_matched :
    SessionPoolKey
    → AcquireEnv
    → Option (PooledEntry × List PooledEntry)
    → SessionPool
    → LeanResult PooledSession × SessionPool
unfolding reuse_entry acquire_fresh
acquire_matched k env (some (e, rest)) p =
    reuse_entry k env env.rebuild e (record p { free = rest })
acquire_matched k env none p = acquire_fresh k env (bump_key_miss (miss_reason p.capacity p.free) p)

acquire_unless :
    Bool → SessionPoolKey → AcquireEnv → SessionPool → LeanResult PooledSession × SessionPool
unfolding acquire_matched
acquire_unless true k env p = (err cancelled, p)
acquire_unless false k env p =
    let p' = remember_key k p in acquire_matched k env (take_matching k p'.free) p'

-- `SessionPool::acquire_with_profile`, for the key of the request.
unfoldable pub acquire_with_profile :
    SessionPoolKey → AcquireEnv → SessionPool → LeanResult PooledSession × SessionPool
unfolding acquire_unless
acquire_with_profile k env p = acquire_unless env.is_cancelled k env p

-- `SessionPool::release`, which the drop of a `PooledSession` calls.
unfoldable pub release : PooledSession → SessionPool → SessionPool
release s p =
    if ltb (length p.free) p.capacity
    then record p {
      free =
          p.free
          ++ (record {
            key = s.key;
            environment = s.session.environment;
            import_stats = s.session.import_stats;
            extension_registry_epoch = s.session.extension_registry_epoch;
          })
            ∷ [];
      stats = record p.stats { released_to_pool = sat_inc p.stats.released_to_pool };
    }
    else record p { stats = record p.stats { released_dropped = sat_inc p.stats.released_dropped } }

-- `SessionPool::drain`.
unfoldable pub drain : SessionPool → ℕ × SessionPool
drain p = (
  length p.free,
  record p {
    free = [];
    stats = record p.stats {
      drains = sat_inc p.stats.drains;
      drained = sat_add p.stats.drained (length p.free);
    };
  },
)
