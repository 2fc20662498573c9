-- ===== src/WorkerPool/Pool/Admitted.antt =====
-- The admission of a lease in crates/lean-rs-worker-parent/src/pool.rs, with each of its four outcomes
-- and what the counters record of it.
use lean_rs.Common.{
  ℕ, zero, suc, ◌≤◌, ◌<◌, ◌≡◌, refl, sym, ap, subst, ◌∙◌, inl, inr, false, Option, List, [], ◌∷◌,
  length, leb, sat_inc, if◌then◌else◌, arith, Bool-cases, leb→le,
}
use lean_rs.Common.Unique.{contains}
use lean_rs.Supervisor.Types.{err}
use lean_rs.WorkerPool.Config.{LeanWorkerSessionKey, session_key_eq, LeanWorkerPoolConfig}
use lean_rs.WorkerPool.Entry.{PoolEntry}
use lean_rs.WorkerPool.State.{
  LeanWorkerPool, position, PoolRssTotal, available_total, refresh_total_child_rss,
  remember_seen_key, record_key_hit, record_key_miss, record_cold_open_attempt,
}
use lean_rs.WorkerPool.Keys.{
  keys, length-keys, keys-refresh_from, Located, found, missing, position-Located,
}
use lean_rs.WorkerPool.Pool.{
  refuse_full, pool_full_error, refuse_budget, exceeded_budget, admit_or_refuse, refuse_when_full,
  admit_sampled, admit_at, admit_lease,
}
use lean_rs.WorkerPool.Pool.Admission.{
  IsSamePool, Affords, affords, exceeds, exceeded_budget-BudgetCase, measured, Admission, warm,
  cold, full, over_budget,
}

module _ (k : LeanWorkerSessionKey) (samples : ℕ → Option ℕ) (p : LeanWorkerPool) where
  -- The pool when the samples are in.
  record IsAttempted (q : LeanWorkerPool) : Type 0 where
    same : IsSamePool p q
    hits : q.key_hits ≡ p.key_hits
    misses : q.key_misses ≡ sat_inc p.key_misses
    attempts : q.cold_open_attempts ≡ sat_inc p.cold_open_attempts
    admitted : q.cold_open_admitted ≡ p.cold_open_admitted
    refusals : q.cold_open_refusals ≡ p.cold_open_refusals

  refuse_full-Admission :
      (q : LeanWorkerPool) (wait : ℕ)
      → q.config.queue_wait_timeout ≡ wait
      → IsAttempted q
      → contains k (keys p.entries) ≡ false
      → p.config.max_workers ≤ length p.entries
      → Admission k samples p (err (refuse_full wait q).0, (refuse_full wait q).1)
  unfolding refuse_full
  refuse_full-Admission q zero w a c h =
      full _ refl
        (
          ap (λ (c : LeanWorkerPoolConfig). c.queue_wait_timeout) (sym a.same.config) ∙ w,
          ap (λ (c : LeanWorkerPoolConfig). c.max_workers) a.same.config,
        )
        c h (record { config = a.same.config; entries = a.same.entries })
        (record {
          hits = a.hits;
          misses = a.misses;
          attempts = a.attempts;
          admitted = a.admitted;
          refusals = ap sat_inc a.refusals;
        })
  refuse_full-Admission q (suc n) w a c h =
      full _ refl (rw (← a.same.config, w) (omega arith), rw (← a.same.config) (sym w)) c h
        (record { config = a.same.config; entries = a.same.entries })
        (record {
          hits = a.hits;
          misses = a.misses;
          attempts = a.attempts;
          admitted = a.admitted;
          refusals = ap sat_inc a.refusals;
        })

  admit_or_refuse-Admission :
      (q : LeanWorkerPool) (budget : Option ℕ)
      → budget ≡ p.config.max_total_child_rss_kib
      → IsAttempted q
      → contains k (keys p.entries) ≡ false
      → length p.entries < p.config.max_workers
      → Admission k samples p
          (admit_or_refuse (exceeded_budget budget (measured k samples p)) (measured k samples p) q)
  unfolding admit_or_refuse refuse_budget
  admit_or_refuse-Admission q budget w a c h =
      elim (exceeded_budget-BudgetCase budget (measured k samples p)) [
        | affords e room ↦ rw e (
            cold refl c h (subst (λ (o : Option ℕ). Affords o (measured k samples p)) w room)
              (record { config = a.same.config; entries = a.same.entries })
              (record {
                hits = a.hits;
                misses = a.misses;
                attempts = a.attempts;
                admitted = ap sat_inc a.admitted;
                refusals = a.refusals;
              }))
        | exceeds limit e b le un ↦ rw e (
            over_budget _ refl (sym w ∙ b, refl, le, un) c h
              (record { config = a.same.config; entries = a.same.entries })
              (record {
                hits = a.hits;
                misses = a.misses;
                attempts = a.attempts;
                admitted = a.admitted;
                refusals = ap sat_inc a.refusals;
              }))
      ]

  -- The pool once the miss and the attempt are counted and the RSS is sampled.
  abbrev asked : List PoolEntry → PoolRssTotal × LeanWorkerPool
  asked es =
      refresh_total_child_rss samples
        (record_cold_open_attempt (record_key_miss es (remember_seen_key k p)))

  asked-IsAttempted : (es : List PoolEntry) → IsAttempted (asked es).1
  unfolding refresh_total_child_rss record_cold_open_attempt remember_seen_key record_key_miss
  asked-IsAttempted [] = record {
    same = record { config = refl; entries = keys-refresh_from samples 0 p.entries _ };
    hits = refl;
    misses = refl;
    attempts = refl;
    admitted = refl;
    refusals = refl;
  }
  asked-IsAttempted (e ∷ es) = record {
    same = record { config = refl; entries = keys-refresh_from samples 0 p.entries _ };
    hits = refl;
    misses = refl;
    attempts = refl;
    admitted = refl;
    refusals = refl;
  }

  asked-measured : (es : List PoolEntry) → (asked es).0 ≡ (measured k samples p)
  unfolding refresh_total_child_rss record_cold_open_attempt remember_seen_key record_key_miss
  asked-measured [] = refl
  asked-measured (e ∷ es) = refl

  length-asked : (q : LeanWorkerPool) → IsAttempted q → length q.entries ≡ length p.entries
  length-asked q a = cc (length-keys q.entries, length-keys p.entries, a.same.entries)

  sampled-Admission :
      (q : LeanWorkerPool)
      → IsAttempted q
      → contains k (keys p.entries) ≡ false
      → Admission k samples p (
          if leb q.config.max_workers (length q.entries)
          then refuse_when_full q
          else admit_or_refuse
              (exceeded_budget q.config.max_total_child_rss_kib (measured k samples p))
              (measured k samples p)
              q)
  unfolding refuse_when_full pool_full_error
  sampled-Admission q a c = elim (Bool-cases (leb q.config.max_workers (length q.entries))) [
    | inl f ↦ rw f (
        refuse_full-Admission q q.config.queue_wait_timeout refl a c
          (rw (← length-asked q a, ← a.same.config) (leb→le _ _ f)))
    | inr f ↦ rw f (
        admit_or_refuse-Admission q q.config.max_total_child_rss_kib
          (ap (λ (c : LeanWorkerPoolConfig). c.max_total_child_rss_kib) a.same.config) a c
          (rw (← length-asked q a, ← a.same.config) (ground arith)))
  ]

  admit_sampled-Admission :
      (t : PoolRssTotal) (q : LeanWorkerPool)
      → t ≡ (measured k samples p)
      → IsAttempted q
      → contains k (keys p.entries) ≡ false
      → Admission k samples p (admit_sampled (t, q))
  unfolding admit_sampled
  admit_sampled-Admission t q e a c = rw e (
      sampled-Admission
        (record q { rss_before_admission_kib = available_total (measured k samples p) })
        (record {
          same = record { config = a.same.config; entries = a.same.entries };
          hits = a.hits;
          misses = a.misses;
          attempts = a.attempts;
          admitted = a.admitted;
          refusals = a.refusals;
        })
        c)

  admit_at-Admission :
      (o : Option ℕ)
      → Located k p.entries o
      → Admission k samples p (admit_at o samples (remember_seen_key k p))
  unfolding admit_at record_key_hit remember_seen_key
  admit_at-Admission o (found i e w g q) = rw w (
      warm i e refl g q refl refl
        (record { hits = refl; misses = refl; attempts = refl; admitted = refl; refusals = refl }))
  admit_at-Admission o (missing w c) = rw w (
      admit_sampled-Admission (asked p.entries).0 (asked p.entries).1 (asked-measured p.entries)
        (asked-IsAttempted p.entries) c)

  -- Admitting a lease has four outcomes. An entry with the key is reused, and the hit is counted.
  -- Otherwise a miss and an attempt are counted, and a cold open is admitted exactly when the pool
  -- has fewer entries than `max_workers` and the measured RSS is below the budget, or the budget is
  -- unset or a sample is missing; a refusal says which of the two failed, the full pool first, and
  -- counts itself. No outcome changes the configuration or the keys of the entries.
  pub admit_lease-Admission : Admission k samples p (admit_lease k samples p)
  unfolding admit_lease
  admit_lease-Admission = admit_at-Admission (position k p.entries) (position-Located k p.entries)
