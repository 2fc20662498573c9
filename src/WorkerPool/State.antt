-- ===== src/WorkerPool/State.antt =====
-- crates/lean-rs-worker-parent/src/pool.rs: the state of `LeanWorkerPool`, its counters, its RSS total
-- and the facts that its refusals carry.
use lean_rs.Common.{
  ℕ, suc, String, false, Option, none, some, List, [], ◌∷◌, ◌++◌, ltb, ◌==◌, sat_add, sat_inc,
  if◌then◌else◌,
}
use lean_rs.Common.Options
use lean_rs.Common.Equality.{◌=?◌}
use lean_rs.Common.Unique.{contains}
use lean_rs.Protocol.Message.{LeanWorkerImportStats, LeanWorkerResourceExhaustedFacts}
use lean_rs.Supervisor.Types.{stable_cause, duration_ms}
use lean_rs.WorkerPool.Config.{LeanWorkerSessionKey, session_key_eq, LeanWorkerPoolConfig}
use lean_rs.WorkerPool.Entry.{PoolEntry, sample_rss}

pub record LeanWorkerPool : Type 0 where
  pub config : LeanWorkerPoolConfig
  pub entries : List PoolEntry
  pub queue_timeouts : ℕ
  pub memory_budget_rejections : ℕ
  pub cold_open_attempts : ℕ
  pub cold_open_admitted : ℕ
  pub cold_open_refusals : ℕ
  pub key_hits : ℕ
  pub key_misses : ℕ
  pub seen_keys : List LeanWorkerSessionKey
  pub fresh_cold_opens_avoided : ℕ
  pub miss_empty_pool : ℕ
  pub miss_no_matching_key : ℕ
  pub last_key_miss_reason : Option String
  pub cold_opens_in_progress : ℕ
  pub concurrent_cold_opens_observed : ℕ
  pub rss_before_admission_kib : Option ℕ
  pub rss_after_open_kib : Option ℕ
  pub refusal_reason : Option String

pub data PoolAdmissionDecision : Type 0 where
  reuse_warm_entry : ℕ → PoolAdmissionDecision
  open_cold_entry : PoolAdmissionDecision

-- `LeanWorkerPool::new`.
unfoldable pub new_pool : LeanWorkerPoolConfig → LeanWorkerPool
new_pool config = record {
  config = config;
  entries = [];
  queue_timeouts = 0;
  memory_budget_rejections = 0;
  cold_open_attempts = 0;
  cold_open_admitted = 0;
  cold_open_refusals = 0;
  key_hits = 0;
  key_misses = 0;
  seen_keys = [];
  fresh_cold_opens_avoided = 0;
  miss_empty_pool = 0;
  miss_no_matching_key = 0;
  last_key_miss_reason = none;
  cold_opens_in_progress = 0;
  concurrent_cold_opens_observed = 0;
  rss_before_admission_kib = none;
  rss_after_open_kib = none;
  refusal_reason = none;
}

unfoldable pub position : LeanWorkerSessionKey → List PoolEntry → Option ℕ
position k [] = none
position k (e ∷ es) = if e.key =? k then some 0 else Options.map suc (position k es)

unfoldable pub remember_seen_key : LeanWorkerSessionKey → LeanWorkerPool → LeanWorkerPool
remember_seen_key k p = record p {
  seen_keys = if contains k p.seen_keys then p.seen_keys else p.seen_keys ++ k ∷ [];
}

unfoldable pub record_key_hit : LeanWorkerPool → LeanWorkerPool
record_key_hit p = record p {
  key_hits = sat_inc p.key_hits;
  fresh_cold_opens_avoided = sat_inc p.fresh_cold_opens_avoided;
  last_key_miss_reason = none;
}

-- `record_key_miss` for the reason that `admit_lease` computes: whether the pool is empty.
unfoldable pub record_key_miss : List PoolEntry → LeanWorkerPool → LeanWorkerPool
record_key_miss [] p = record p {
  key_misses = sat_inc p.key_misses;
  miss_empty_pool = sat_inc p.miss_empty_pool;
  last_key_miss_reason = some "empty_pool";
}
record_key_miss (e ∷ es) p = record p {
  key_misses = sat_inc p.key_misses;
  miss_no_matching_key = sat_inc p.miss_no_matching_key;
  last_key_miss_reason = some "no_matching_key";
}

unfoldable pub record_cold_open_attempt : LeanWorkerPool → LeanWorkerPool
record_cold_open_attempt p = record p {
  cold_open_attempts = sat_inc p.cold_open_attempts;
  refusal_reason = none;
  concurrent_cold_opens_observed =
      if ltb 0 p.cold_opens_in_progress
      then sat_inc p.concurrent_cold_opens_observed
      else p.concurrent_cold_opens_observed;
}

unfoldable pub record_cold_open_admitted : LeanWorkerPool → LeanWorkerPool
record_cold_open_admitted p = record p {
  cold_open_admitted = sat_inc p.cold_open_admitted;
  cold_opens_in_progress = sat_inc p.cold_opens_in_progress;
}

unfoldable pub record_cold_open_refusal : String → LeanWorkerPool → LeanWorkerPool
record_cold_open_refusal reason p = record p {
  cold_open_refusals = sat_inc p.cold_open_refusals;
  refusal_reason = some reason;
}

pub record PoolRssTotal : Type 0 where
  pub total_kib : ℕ
  pub unavailable : ℕ

unfoldable pub available_total : PoolRssTotal → Option ℕ
available_total t = if t.unavailable == 0 then some t.total_kib else none

unfoldable pub add_sample : Option ℕ → PoolRssTotal → PoolRssTotal
add_sample (some value) t = record t { total_kib = sat_add t.total_kib value }
add_sample none t = record t { unavailable = sat_inc t.unavailable }

-- The samples are the platform's answers, by the entry's position.
unfoldable pub refresh_from :
    (ℕ → Option ℕ) → ℕ → List PoolEntry → PoolRssTotal → PoolRssTotal × List PoolEntry
unfolding add_sample
refresh_from samples i [] t = (t, [])
refresh_from samples i (e ∷ es) t =
    let (value, e') = sample_rss (samples i) e in
    let (t', es') = refresh_from samples (suc i) es (add_sample value t) in (t', e' ∷ es')

-- `LeanWorkerPool::refresh_total_child_rss`.
unfoldable pub refresh_total_child_rss :
    (ℕ → Option ℕ) → LeanWorkerPool → PoolRssTotal × LeanWorkerPool
unfolding refresh_from
refresh_total_child_rss samples p =
    let (t, es) = refresh_from samples 0 p.entries (record { total_kib = 0; unavailable = 0 }) in
    (t, record p { entries = es })

known_from : ℕ → List PoolEntry → Option ℕ
known_from acc [] = some acc
known_from acc (e ∷ es) = elim e.last_rss_kib [
  | none ↦ none
  | some rss ↦ known_from (sat_add acc rss) es
]

unfoldable pub total_known_child_rss_kib : List PoolEntry → Option ℕ
unfolding known_from
total_known_child_rss_kib es = known_from 0 es

find_map {ℓ} : {A : Type ℓ} → (PoolEntry → Option A) → List PoolEntry → Option A
find_map f [] = none
find_map f (e ∷ es) = Options.or_else (f e) (find_map f es)

unfoldable pub latest_import_stats : LeanWorkerPool → Option LeanWorkerImportStats
unfolding find_map
latest_import_stats p =
    find_map (λ (e : PoolEntry). e.capability.worker.stats.last_import_stats) p.entries

import_like_total : ℕ → List PoolEntry → ℕ
import_like_total acc [] = acc
import_like_total acc (e ∷ es) =
    import_like_total (sat_add acc e.capability.worker.stats.import_like_admission_attempts) es

-- `LeanWorkerPool::pool_resource_facts`.
unfoldable pub pool_resource_facts :
    String → Option ℕ → Option ℕ → Option ℕ → LeanWorkerPool → LeanWorkerResourceExhaustedFacts
unfolding find_map latest_import_stats import_like_total
pool_resource_facts cause current limit queue_wait p = record {
  cause = cause;
  work_entered_child = false;
  operation = some "worker_pool_acquire_lease";
  current_rss_kib = current;
  limit_kib = limit;
  import_count = none;
  worker_generation = none;
  restart_reason =
      Options.map stable_cause
        (find_map (λ (e : PoolEntry). e.capability.worker.stats.last_restart_reason) p.entries);
  queue_wait_ms = Options.map duration_ms queue_wait;
  duration_ms = none;
  cold_open_attempts = some p.cold_open_attempts;
  cold_open_admitted = some p.cold_open_admitted;
  cold_open_refusals = some p.cold_open_refusals;
  import_like_requests = some (import_like_total 0 p.entries);
  import_like_admitted = none;
  last_import_stats = latest_import_stats p;
}
