-- ===== src/HostPool/Acquire/Sound.antt =====
-- The invariant of `SessionPool` in crates/lean-rs-host/src/host/pool.rs: its bounds, and what its
-- counters add up to.
use lean_rs.Common.{
  ℕ, ◌+◌, ◌≡◌, refl, subst, inl, inr, Bool, true, false, Option, none, some, List, [], ◌∷◌, length,
  length-append, ltb, leb, ltb→lt, arith, if_rule, Bool-cases,
}
use lean_rs.Common.Equality.{◌=?◌}
use lean_rs.HostPool.State.{
  stale_environment, SessionPoolKey, pool_key_eq, PooledEntry, SessionPool, take_first, take_later,
  take_matching, miss_reason, remember_key, bump_rss_sample,
}
use lean_rs.HostPool.Acquire.{
  LeanError, LeanResult, ok, err, LeanSession, PooledSession, check_rss_limit, check_import_limit,
  refuse_imports, refuse_ceiling, refuse_unsampled, enforce_before_fresh_import, AcquireEnv,
  hand_out, import_fresh, acquire_fresh, is_live, reuse_entry, acquire_matched, acquire_unless,
  acquire_with_profile, release,
}
use lean_rs.HostPool.Acquire.Counted.{
  IsSound, Below, bump_key_miss-IsSound, bump_reused-IsSound, bump_imported-IsSound,
  bump_fresh_import_refusal-IsSound, bump_rss_sample-IsSound, bump_stale_evictions-IsSound,
  refree-IsSound, sweep_stale-IsSound, remember_key-IsSound,
}

-- Before an import: on `Ok` there is room for one under the limit.
abbrev Enforces : LeanResult (Unit {0}) × SessionPool → Type 0
Enforces (ok _, q) = IsSound q × Below q.stats.imports_performed q.memory_policy.max_fresh_imports
Enforces (err x, q) = IsSound q

check_rss_limit-Enforces :
    (limit rss : Option ℕ) (requested : ℕ) (p : SessionPool)
    → IsSound p
    → Below p.stats.imports_performed p.memory_policy.max_fresh_imports
    → Enforces (check_rss_limit limit rss requested p)
unfolding check_rss_limit refuse_ceiling refuse_unsampled bump_rss_sample
check_rss_limit-Enforces none rss requested p s b = (s, b)
check_rss_limit-Enforces (some limit) none requested p s b =
    bump_fresh_import_refusal-IsSound _ (bump_rss_sample-IsSound true p s)
check_rss_limit-Enforces (some limit) (some current) requested p s b =
    if_rule Enforces (leb limit current)
      (bump_fresh_import_refusal-IsSound _ (bump_rss_sample-IsSound false p s))
      (bump_rss_sample-IsSound false p s, b)

check_import_limit-Enforces :
    (limit rss : Option ℕ) (requested : ℕ) (p : SessionPool)
    → limit ≡ p.memory_policy.max_fresh_imports
    → IsSound p
    → Enforces (check_import_limit limit rss requested p)
unfolding check_import_limit refuse_imports
check_import_limit-Enforces none rss requested p e s =
    check_rss_limit-Enforces _ rss requested p s (subst (Below p.stats.imports_performed) e tt)
check_import_limit-Enforces (some limit) rss requested p e s =
    elim (Bool-cases (leb limit p.stats.imports_performed)) [
      | inl f ↦ rw f (bump_fresh_import_refusal-IsSound p s)
      | inr f ↦ rw f (
          check_rss_limit-Enforces _ rss requested p s
            (subst (Below p.stats.imports_performed) e (ground arith)))
    ]

-- The pool after a step that may hand a session out.
abbrev pub Keeps {ℓ} : {A : Type ℓ} → LeanResult A × SessionPool → Type 0
Keeps (r, q) = IsSound q

import_fresh-Keeps :
    (k : SessionPoolKey) (fresh : LeanResult LeanSession) (r : LeanResult (Unit {0}) × SessionPool)
    → Enforces r
    → Keeps (import_fresh k fresh r)
unfolding import_fresh hand_out
import_fresh-Keeps k fresh (err x, p) h = h
import_fresh-Keeps k (err x) (ok _, p) h = h.0
import_fresh-Keeps k (ok v) (ok _, p) h =
    sweep_stale-IsSound _ _ (bump_imported-IsSound (some v.import_stats) p h.0 h.1)

acquire_fresh-Keeps :
    (k : SessionPoolKey) (env : AcquireEnv) (p : SessionPool)
    → IsSound p
    → Keeps (acquire_fresh k env p)
unfolding acquire_fresh enforce_before_fresh_import
acquire_fresh-Keeps k env p s = import_fresh-Keeps k env.fresh _ (
    check_import_limit-Enforces p.memory_policy.max_fresh_imports env.rss (length k.imports) p refl
      s)

reuse_entry-Keeps :
    (k : SessionPoolKey) (env : AcquireEnv) (x : Option LeanError) (e : PooledEntry)
    (p : SessionPool)
    → IsSound p
    → Keeps (reuse_entry k env x e p)
unfolding reuse_entry hand_out
reuse_entry-Keeps k env (some x) e p s = s
reuse_entry-Keeps k env none e p s =
    if_rule Keeps (is_live env.live e.extension_registry_epoch)
      (sweep_stale-IsSound _ _ (bump_reused-IsSound p s))
      (acquire_fresh-Keeps k env _
        (bump_key_miss-IsSound stale_environment _ (bump_stale_evictions-IsSound 1 p s)))

-- What is left of the list is no longer than the list.
abbrev Shorter : List PooledEntry → Option (PooledEntry × List PooledEntry) → Type 0
Shorter es none = Unit {0}
Shorter es (some (e, rest)) = length rest + 1 ≡ length es

take_later-Shorter :
    (k : SessionPoolKey) (e : PooledEntry) (es : List PooledEntry)
    (o : Option (PooledEntry × List PooledEntry))
    → Shorter es o
    → Shorter (e ∷ es) (take_later k e es o)
unfolding take_later take_first
take_later-Shorter k e es (some (x, rest)) h = omega arith
take_later-Shorter k e es none h = go (e.key =? k)
  where
    go : (b : Bool) → Shorter (e ∷ es) (take_first b e es)
    go true = omega arith
    go false = tt

take_matching-Shorter :
    (k : SessionPoolKey) (es : List PooledEntry) → Shorter es (take_matching k es)
unfolding take_matching
take_matching-Shorter k [] = tt
take_matching-Shorter k (e ∷ es) = take_later-Shorter k e es _ (take_matching-Shorter k es)

acquire_matched-Keeps :
    (k : SessionPoolKey) (env : AcquireEnv) (o : Option (PooledEntry × List PooledEntry))
    (p : SessionPool)
    → Shorter p.free o
    → IsSound p
    → Keeps (acquire_matched k env o p)
unfolding acquire_matched
acquire_matched-Keeps k env none p h s =
    acquire_fresh-Keeps k env _ (bump_key_miss-IsSound (miss_reason p.capacity p.free) p s)
acquire_matched-Keeps k env (some (e, rest)) p h s =
    reuse_entry-Keeps k env env.rebuild e (record p { free = rest })
      (refree-IsSound p rest (omega arith) s)

-- Whatever the registry, the RSS and the import answer, an acquisition keeps the free list within the
-- capacity and the imports within `max_fresh_imports`, and the counters stay in step: each
-- acquisition is a reuse or an import, each hit is a reuse and an import avoided, and each miss has
-- one reason. The pool is so before.
pub acquire_with_profile-IsSound :
    (k : SessionPoolKey) (env : AcquireEnv) (p : SessionPool)
    → IsSound p
    → IsSound (acquire_with_profile k env p).1
unfolding acquire_with_profile acquire_unless
acquire_with_profile-IsSound k env p s = go env.is_cancelled
  where
    go : (b : Bool) → Keeps (acquire_unless b k env p)
    go true = s
    go false =
        acquire_matched-Keeps k env _ (remember_key k p)
          (take_matching-Shorter k (remember_key k p).free) (remember_key-IsSound k p s)

-- A release keeps the invariant: an environment goes back to the free list only below the capacity.
-- The pool is sound before.
pub release-IsSound : (v : PooledSession) (p : SessionPool) → IsSound p → IsSound (release v p)
unfolding release
release-IsSound v p s = elim (Bool-cases (ltb (length p.free) p.capacity)) [
  | inl f ↦ rw f (record {
    bounded = omega (
      arith,
      length-append p.free (
          record {
            key = v.key;
            environment = v.session.environment;
            import_stats = v.session.import_stats;
            extension_registry_epoch = v.session.extension_registry_epoch;
          }
          ∷ []),
      ltb→lt _ _ f,
    );
    counted = record {
      acquired = s.counted.acquired;
      hits = s.counted.hits;
      avoided = s.counted.avoided;
      misses = s.counted.misses;
    };
    limited = s.limited;
  })
  | inr f ↦ rw f (record {
    bounded = s.bounded;
    counted = record {
      acquired = s.counted.acquired;
      hits = s.counted.hits;
      avoided = s.counted.avoided;
      misses = s.counted.misses;
    };
    limited = s.limited;
  })
]
