-- ===== src/WorkerPool/Pool.antt =====
-- crates/lean-rs-worker-parent/src/pool.rs: the admission of a lease, and its refusals.
pub mod Admission
pub mod Admitted
use lean_rs.Common.{
  ℕ, zero, suc, ◌+◌, ◌-◌, String, Bool, true, false, ◌||◌, Option, none, some, List, [], ◌∷◌, ◌++◌,
  length, get_elem?, leb, ltb, ◌==◌, sat_add, sat_inc, if◌then◌else◌, min, u64_max,
}
use lean_rs.Common.Options
use lean_rs.Common.Equality.{◌=?◌}
use lean_rs.Protocol.Message.{LeanWorkerImportStats, LeanWorkerResourceExhaustedFacts}
use lean_rs.Supervisor.Types.{
  LeanWorkerRestartReason, stable_cause, Text, LeanWorkerError, worker_pool_exhausted,
  worker_pool_memory_budget_exceeded, worker_pool_queue_timeout, protocol, lit, Result, ok, err,
  duration_ms,
}
use lean_rs.Supervisor.Worker.{LeanWorker, LeanWorkerStatus, running, exited, Poll, status}
use lean_rs.Supervisor.Measure.{lifecycle_snapshot}
use lean_rs.WorkerPool.Config.{LeanWorkerSessionKey, session_key_eq, LeanWorkerPoolConfig}
use lean_rs.WorkerPool.Entry.{
  LeanWorkerCapability, LeanWorkerCapabilityBuilder, PoolEntry, with_worker, sample_rss, PolicyEnv,
  enforce_policy,
}
use lean_rs.WorkerPool.State.{
  LeanWorkerPool, PoolAdmissionDecision, reuse_warm_entry, open_cold_entry, position, PoolRssTotal,
  available_total, refresh_total_child_rss, pool_resource_facts, total_known_child_rss_kib,
  remember_seen_key, record_key_hit, record_key_miss, record_cold_open_attempt,
  record_cold_open_admitted, record_cold_open_refusal, refresh_from, latest_import_stats,
  add_sample,
}

refuse_full : ℕ → LeanWorkerPool → LeanWorkerError × LeanWorkerPool
unfolding record_cold_open_refusal pool_resource_facts
refuse_full zero p =
    let p' = record_cold_open_refusal "max_workers" p in
    (
      worker_pool_exhausted p'.config.max_workers
          (pool_resource_facts "worker_pool_max_workers" none none none p'),
      p',
    )
refuse_full (suc n) p =
    let p' =
      record_cold_open_refusal "queue_timeout"
        (record p { queue_timeouts = sat_inc p.queue_timeouts }) in
    (
      worker_pool_queue_timeout (suc n)
          (pool_resource_facts "worker_pool_queue_timeout" none none (some (suc n)) p'),
      p',
    )

-- `LeanWorkerPool::pool_full_error`; the sleep that waits the timeout out changes nothing.
unfoldable pub pool_full_error : LeanWorkerPool → LeanWorkerError × LeanWorkerPool
unfolding refuse_full
pool_full_error p = refuse_full p.config.queue_wait_timeout p

refuse_budget : ℕ → ℕ → LeanWorkerPool → LeanWorkerError × LeanWorkerPool
unfolding record_cold_open_refusal pool_resource_facts latest_import_stats
refuse_budget total limit p =
    let p' =
      record_cold_open_refusal "rss_budget"
        (record p { memory_budget_rejections = sat_inc p.memory_budget_rejections }) in
    (
      worker_pool_memory_budget_exceeded total limit (latest_import_stats p')
          (pool_resource_facts "worker_pool_total_rss_budget" (some total) (some limit) none p'),
      p',
    )

-- The budget that `ensure_spawn_within_total_rss_budget` finds exceeded.
unfoldable pub exceeded_budget : Option ℕ → PoolRssTotal → Option ℕ
exceeded_budget none rss = none
exceeded_budget (some limit) rss =
    if ltb 0 rss.unavailable then none else if leb limit rss.total_kib then some limit else none

admit_or_refuse :
    Option ℕ → PoolRssTotal → LeanWorkerPool → Result PoolAdmissionDecision × LeanWorkerPool
unfolding record_cold_open_admitted refuse_budget
admit_or_refuse none rss p = (ok open_cold_entry, record_cold_open_admitted p)
admit_or_refuse (some limit) rss p =
    let (e, p') = refuse_budget rss.total_kib limit p in (err e, p')

refuse_when_full : LeanWorkerPool → Result PoolAdmissionDecision × LeanWorkerPool
unfolding pool_full_error
refuse_when_full p = let (e, p') = pool_full_error p in (err e, p')

admit_sampled : PoolRssTotal × LeanWorkerPool → Result PoolAdmissionDecision × LeanWorkerPool
unfolding refuse_when_full admit_or_refuse exceeded_budget
admit_sampled (rss, p) =
    let p' = record p { rss_before_admission_kib = available_total rss } in
    if leb p'.config.max_workers (length p'.entries)
    then refuse_when_full p'
    else admit_or_refuse (exceeded_budget p'.config.max_total_child_rss_kib rss) rss p'

admit_at :
    Option ℕ → (ℕ → Option ℕ) → LeanWorkerPool → Result PoolAdmissionDecision × LeanWorkerPool
unfolding admit_sampled record_key_hit record_key_miss record_cold_open_attempt
admit_at (some index) samples p = (ok (reuse_warm_entry index), record_key_hit p)
admit_at none samples p =
    admit_sampled
      (refresh_total_child_rss samples (record_cold_open_attempt (record_key_miss p.entries p)))

-- `LeanWorkerPool::admit_lease`.
unfoldable pub admit_lease :
    LeanWorkerSessionKey
    → (ℕ → Option ℕ)
    → LeanWorkerPool
    → Result PoolAdmissionDecision × LeanWorkerPool
unfolding admit_at remember_seen_key position
admit_lease k samples p = admit_at (position k p.entries) samples (remember_seen_key k p)
