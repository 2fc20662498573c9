-- ===== src/WorkerPool/Pool/Admission.antt =====
-- The outcomes of an admission in crates/lean-rs-worker-parent/src/pool.rs.
use lean_rs.Common.{
  ℕ, ◌≤◌, ◌<◌, ◌≡◌, refl, ◌⊎◌, inl, inr, false, Option, none, some, length, get_elem?, leb, ltb,
  sat_inc, arith, Bool-cases, leb→le, ltb→lt,
}
use lean_rs.Common.Unique.{contains}
use lean_rs.Supervisor.Types.{
  LeanWorkerError, worker_pool_exhausted, worker_pool_memory_budget_exceeded,
  worker_pool_queue_timeout, Result, ok, err,
}
use lean_rs.WorkerPool.Config.{LeanWorkerSessionKey, session_key_eq, LeanWorkerPoolConfig}
use lean_rs.WorkerPool.Entry.{PoolEntry}
use lean_rs.WorkerPool.State.{
  LeanWorkerPool, PoolAdmissionDecision, reuse_warm_entry, open_cold_entry, PoolRssTotal,
  refresh_total_child_rss,
}
use lean_rs.WorkerPool.Keys.{keys}
use lean_rs.WorkerPool.Pool.{exceeded_budget}

-- The counters after a hit, an admitted cold open and a refused one.
pub record IsHit (p p' : LeanWorkerPool) : Type 0 where
  pub hits : p'.key_hits ≡ sat_inc p.key_hits
  pub misses : p'.key_misses ≡ p.key_misses
  pub attempts : p'.cold_open_attempts ≡ p.cold_open_attempts
  pub admitted : p'.cold_open_admitted ≡ p.cold_open_admitted
  pub refusals : p'.cold_open_refusals ≡ p.cold_open_refusals

pub record IsColdOpen (p p' : LeanWorkerPool) : Type 0 where
  pub hits : p'.key_hits ≡ p.key_hits
  pub misses : p'.key_misses ≡ sat_inc p.key_misses
  pub attempts : p'.cold_open_attempts ≡ sat_inc p.cold_open_attempts
  pub admitted : p'.cold_open_admitted ≡ sat_inc p.cold_open_admitted
  pub refusals : p'.cold_open_refusals ≡ p.cold_open_refusals

pub record IsRefusal (p p' : LeanWorkerPool) : Type 0 where
  pub hits : p'.key_hits ≡ p.key_hits
  pub misses : p'.key_misses ≡ sat_inc p.key_misses
  pub attempts : p'.cold_open_attempts ≡ sat_inc p.cold_open_attempts
  pub admitted : p'.cold_open_admitted ≡ p.cold_open_admitted
  pub refusals : p'.cold_open_refusals ≡ sat_inc p.cold_open_refusals

-- The same entries by key, under the same configuration.
pub record IsSamePool (p p' : LeanWorkerPool) : Type 0 where
  pub config : p'.config ≡ p.config
  pub entries : keys p'.entries ≡ keys p.entries

-- The budget leaves room: there is none, a sample is missing, or the total is below it.
abbrev pub Affords : Option ℕ → PoolRssTotal → Type 0
Affords none rss = Unit {0}
Affords (some limit) rss = (0 < rss.unavailable) ⊎ (rss.total_kib < limit)

-- The error of a full pool: at once without a queue timeout, after it with one.
abbrev pub FullError : LeanWorkerPoolConfig → LeanWorkerError → Type 0
FullError c (worker_pool_exhausted m facts) = (c.queue_wait_timeout ≡ 0) × (m ≡ c.max_workers)
FullError c (worker_pool_queue_timeout waited facts) =
    (0 < c.queue_wait_timeout) × (waited ≡ c.queue_wait_timeout)
FullError c x = ⊥

-- The error of an exceeded budget carries the total and the limit.
abbrev pub BudgetError : LeanWorkerPoolConfig → PoolRssTotal → LeanWorkerError → Type 0
BudgetError c rss (worker_pool_memory_budget_exceeded current limit stats facts) =
    (c.max_total_child_rss_kib ≡ some limit)
    × (current ≡ rss.total_kib)
    × (limit ≤ rss.total_kib)
    × (rss.unavailable ≡ 0)
BudgetError c rss x = ⊥

pub data BudgetCase (budget : Option ℕ) (rss : PoolRssTotal) : Type 0 where
  affords : exceeded_budget budget rss ≡ none → Affords budget rss → BudgetCase budget rss
  exceeds :
      (limit : ℕ)
      → exceeded_budget budget rss ≡ some limit
      → budget ≡ some limit
      → limit ≤ rss.total_kib
      → rss.unavailable ≡ 0
      → BudgetCase budget rss

pub exceeded_budget-BudgetCase : (budget : Option ℕ) (rss : PoolRssTotal) → BudgetCase budget rss
unfolding exceeded_budget
exceeded_budget-BudgetCase none rss = affords refl tt
exceeded_budget-BudgetCase (some limit) rss = elim (Bool-cases (ltb 0 rss.unavailable)) [
  | inl u ↦ affords (rw u refl) (inl (ltb→lt _ _ u))
  | inr u ↦ elim (Bool-cases (leb limit rss.total_kib)) [
    | inl b ↦ exceeds limit (rw (u, b) refl) refl (leb→le _ _ b) (ground arith)
    | inr b ↦ affords (rw (u, b) refl) (inr (ground arith))
  ]
]

module _ (k : LeanWorkerSessionKey) (samples : ℕ → Option ℕ) (p : LeanWorkerPool) where
  -- The total that the admission measures.
  abbrev pub measured : PoolRssTotal
  measured = (refresh_total_child_rss samples p).0

  pub data Admission (r : Result PoolAdmissionDecision × LeanWorkerPool) : Type 0 where
    warm :
        (i : ℕ) (e : PoolEntry)
        → r.0 ≡ ok (reuse_warm_entry i)
        → get_elem? p.entries i ≡ some e
        → e.key ≡ k
        → r.1.entries ≡ p.entries
        → r.1.config ≡ p.config
        → IsHit p r.1
        → Admission r
    cold :
        r.0 ≡ ok open_cold_entry
        → contains k (keys p.entries) ≡ false
        → length p.entries < p.config.max_workers
        → Affords p.config.max_total_child_rss_kib measured
        → IsSamePool p r.1
        → IsColdOpen p r.1
        → Admission r
    full :
        (x : LeanWorkerError)
        → r.0 ≡ err x
        → FullError p.config x
        → contains k (keys p.entries) ≡ false
        → p.config.max_workers ≤ length p.entries
        → IsSamePool p r.1
        → IsRefusal p r.1
        → Admission r
    over_budget :
        (x : LeanWorkerError)
        → r.0 ≡ err x
        → BudgetError p.config measured x
        → contains k (keys p.entries) ≡ false
        → length p.entries < p.config.max_workers
        → IsSamePool p r.1
        → IsRefusal p r.1
        → Admission r
