-- ===== src/HostPool/Acquire/Room.antt =====
-- The memory policy of crates/lean-rs-host/src/host/pool.rs before an import.
use lean_rs.Common.{ℕ, ◌<◌, ◌≡◌, ap, subst, inl, inr, Option, none, some, leb, arith, Bool-cases}
use lean_rs.HostPool.State.{pool_key_eq, SessionPool, bump_fresh_import_refusal, bump_rss_sample}
use lean_rs.HostPool.Acquire.{
  LeanResult, ok, err, check_rss_limit, check_import_limit, refuse_imports, refuse_ceiling,
  refuse_unsampled, enforce_before_fresh_import,
}

-- What an acquisition starts from, as far as its steps before the outcome leave it alone.
pub record Same (p q : SessionPool) : Type 0 where
  pub imports : q.stats.imports_performed ≡ p.stats.imports_performed
  pub reused : q.stats.reused ≡ p.stats.reused
  pub acquired : q.stats.acquired ≡ p.stats.acquired
  pub policy : q.memory_policy ≡ p.memory_policy

abbrev pub Below : ℕ → Option ℕ → Type 0
Below n none = Unit {0}
Below n (some limit) = n < limit

-- Under a ceiling the sample must be there and below it.
abbrev pub Sampled : Option ℕ → Option ℕ → Type 0
Sampled none rss = Unit {0}
Sampled (some limit) none = ⊥
Sampled (some limit) (some current) = current < limit

-- Before an import: on `Ok` the policy has room for one.
abbrev pub Enforces : SessionPool → Option ℕ → LeanResult (Unit {0}) × SessionPool → Type 0
Enforces p rss (ok _, q) =
    Same p q
    × Below p.stats.imports_performed p.memory_policy.max_fresh_imports
    × Sampled p.memory_policy.max_rss_kib rss
Enforces p rss (err x, q) = Same p q

check_rss_limit-Enforces :
    (limit rss : Option ℕ) (requested : ℕ) (p q : SessionPool)
    → limit ≡ p.memory_policy.max_rss_kib
    → Same p q
    → Below p.stats.imports_performed p.memory_policy.max_fresh_imports
    → Enforces p rss (check_rss_limit limit rss requested q)
unfolding check_rss_limit refuse_ceiling refuse_unsampled bump_rss_sample bump_fresh_import_refusal
check_rss_limit-Enforces none rss requested p q e s b =
    (s, b, subst (λ (o : Option ℕ). Sampled o rss) e tt)
check_rss_limit-Enforces (some limit) none requested p q e s b = record {
  imports = s.imports;
  reused = s.reused;
  acquired = s.acquired;
  policy = s.policy;
}
check_rss_limit-Enforces (some limit) (some current) requested p q e s b =
    elim (Bool-cases (leb limit current)) [
      | inl f ↦ rw f (record {
        imports = s.imports;
        reused = s.reused;
        acquired = s.acquired;
        policy = s.policy;
      })
      | inr f ↦ rw f (
        record { imports = s.imports; reused = s.reused; acquired = s.acquired; policy = s.policy },
        b,
        subst (λ (o : Option ℕ). Sampled o (some current)) e (ground arith),
      )
    ]

check_import_limit-Enforces :
    (limit rss : Option ℕ) (requested : ℕ) (p q : SessionPool)
    → limit ≡ p.memory_policy.max_fresh_imports
    → Same p q
    → Enforces p rss (check_import_limit limit rss requested q)
unfolding check_import_limit refuse_imports bump_fresh_import_refusal
check_import_limit-Enforces none rss requested p q e s =
    check_rss_limit-Enforces _ rss requested p q (ap (λ m. m.max_rss_kib) s.policy) s
      (subst (Below p.stats.imports_performed) e tt)
check_import_limit-Enforces (some limit) rss requested p q e s =
    elim (Bool-cases (leb limit q.stats.imports_performed)) [
      | inl f ↦ rw f (record {
        imports = s.imports;
        reused = s.reused;
        acquired = s.acquired;
        policy = s.policy;
      })
      | inr f ↦ rw f (
          check_rss_limit-Enforces _ rss requested p q (ap (λ m. m.max_rss_kib) s.policy) s
            (subst (Below p.stats.imports_performed) e (rw (← s.imports) (ground arith))))
    ]

pub enforce_before_fresh_import-Enforces :
    (rss : Option ℕ) (requested : ℕ) (p q : SessionPool)
    → Same p q
    → Enforces p rss (enforce_before_fresh_import rss requested q)
unfolding enforce_before_fresh_import
enforce_before_fresh_import-Enforces rss requested p q s =
    check_import_limit-Enforces q.memory_policy.max_fresh_imports rss requested p q
      (ap (λ m. m.max_fresh_imports) s.policy) s
