-- ===== src/HostPool/Acquire/Outcome.antt =====
-- The outcome of an acquisition in crates/lean-rs-host/src/host/pool.rs: which environment a session
-- stands on, and when an import is made or refused.
use lean_rs.Common.{
  ℕ, ◌-◌, ltb, ◌≡◌, ◌≢◌, refl, ap, ◌∙◌, inl, inr, Bool, true, false, Option, none, some, List, [],
  ◌∷◌, length, All, ◌==◌, ==_iff, sat_inc, arith, Bool-cases, if_rule,
}
use lean_rs.Common.Unique.{contains}
use lean_rs.HostPool.State.{
  SessionPoolKeyMissReason, stale_environment, SessionPoolKey, pool_key_eq, PooledEntry,
  SessionPool, take_matching, bump_reused, bump_imported, remember_key, bump_stale_evictions,
  count_miss, bump_key_miss, live_entries, sweep_stale,
}
use lean_rs.HostPool.Acquire.{
  LeanError, cancelled, LeanResult, ok, err, LeanSession, PooledSession, AcquireEnv, session_of,
  hand_out, import_fresh, acquire_fresh, is_live, reuse_entry, acquire_matched, acquire_unless,
  acquire_with_profile,
}
use lean_rs.HostPool.Acquire.Taken.{Taken, take_matching-Taken}
use lean_rs.HostPool.Acquire.Room.{
  Same, Below, Sampled, Enforces, enforce_before_fresh_import-Enforces,
}

-- Every pooled environment was imported at the epoch.
abbrev pub IsSwept : ℕ → SessionPool → Type 0
IsSwept epoch p = All (λ (e : PooledEntry). e.extension_registry_epoch ≡ epoch) p.free

-- Nothing can be reused: no entry has the key, or the last that has it is of another epoch.
pub data Unusable (k : SessionPoolKey) (live : Option ℕ) (es : List PooledEntry) : Type 0 where
  absent : Taken k es none → Unusable k live es
  stale :
      (e : PooledEntry) (rest : List PooledEntry)
      → Taken k es (some (e, rest))
      → live ≢ some e.extension_registry_epoch
      → Unusable k live es

pub data Acquired (k : SessionPoolKey) (env : AcquireEnv) (p : SessionPool)
    (r : LeanResult PooledSession × SessionPool) : Type 0 where
  reused :
      (e : PooledEntry) (rest : List PooledEntry)
      → Taken k p.free (some (e, rest))
      → env.live ≡ some e.extension_registry_epoch
      → r.0 ≡ ok (record { key = k; session = session_of e })
      → r.1.stats.imports_performed ≡ p.stats.imports_performed
      → r.1.stats.reused ≡ sat_inc p.stats.reused
      → IsSwept e.extension_registry_epoch r.1
      → Acquired k env p r
  imported :
      (s : LeanSession)
      → env.fresh ≡ ok s
      → Unusable k env.live p.free
      → Below p.stats.imports_performed p.memory_policy.max_fresh_imports
      → Sampled p.memory_policy.max_rss_kib env.rss
      → r.0 ≡ ok (record { key = k; session = s })
      → r.1.stats.imports_performed ≡ sat_inc p.stats.imports_performed
      → r.1.stats.reused ≡ p.stats.reused
      → IsSwept s.extension_registry_epoch r.1
      → Acquired k env p r
  failed :
      (x : LeanError)
      → r.0 ≡ err x
      → r.1.stats.imports_performed ≡ p.stats.imports_performed
      → r.1.stats.reused ≡ p.stats.reused
      → r.1.stats.acquired ≡ p.stats.acquired
      → Acquired k env p r

live_entries-All :
    (live : ℕ) (es : List PooledEntry)
    → All (λ (e : PooledEntry). e.extension_registry_epoch ≡ live) (live_entries live es)
unfolding live_entries
live_entries-All live [] = tt
live_entries-All live (e ∷ es) = elim (Bool-cases (live == e.extension_registry_epoch)) [
  | inl t ↦ rw t (ground (arith, ==_iff live e.extension_registry_epoch), live_entries-All live es)
  | inr f ↦ rw f (live_entries-All live es)
]

sweep_stale-IsSwept : (live : ℕ) (p : SessionPool) → IsSwept live (sweep_stale live p)
unfolding sweep_stale bump_stale_evictions
sweep_stale-IsSwept live p =
    if_rule (IsSwept live) _ (live_entries-All live p.free) (live_entries-All live p.free)

sweep_stale-Same : (live : ℕ) (p : SessionPool) → Same p (sweep_stale live p)
unfolding sweep_stale bump_stale_evictions
sweep_stale-Same live p =
    if_rule (Same p) (ltb 0 (length p.free - length (live_entries live p.free)))
      {x = bump_stale_evictions (length p.free - length (live_entries live p.free))
        (record p { free = live_entries live p.free })}
      {y = record p { free = live_entries live p.free }}
      (record { imports = refl; reused = refl; acquired = refl; policy = refl })
      (record { imports = refl; reused = refl; acquired = refl; policy = refl })

import_fresh-Acquired :
    (k : SessionPoolKey) (env : AcquireEnv) (p : SessionPool) (fresh : LeanResult LeanSession)
    (r : LeanResult (Unit {0}) × SessionPool)
    → env.fresh ≡ fresh
    → Unusable k env.live p.free
    → Enforces p env.rss r
    → Acquired k env p (import_fresh k fresh r)
unfolding import_fresh hand_out bump_imported
import_fresh-Acquired k env p fresh (err x, q) e u s = failed x refl s.imports s.reused s.acquired
import_fresh-Acquired k env p (err x) (ok _, q) e u (s, b, m) =
    failed x refl s.imports s.reused s.acquired
import_fresh-Acquired k env p (ok v) (ok _, q) e u (s, b, m) =
    imported v e u b m refl (t.imports ∙ ap sat_inc s.imports) (t.reused ∙ s.reused)
      (sweep_stale-IsSwept _ w)
  where
    w : SessionPool
    w = bump_imported (record q { last_import_stats = some v.import_stats })

    t : Same w (sweep_stale v.extension_registry_epoch w)
    t = sweep_stale-Same v.extension_registry_epoch w

acquire_fresh-Acquired :
    (k : SessionPoolKey) (env : AcquireEnv) (p q : SessionPool)
    → Unusable k env.live p.free
    → Same p q
    → Acquired k env p (acquire_fresh k env q)
unfolding acquire_fresh
acquire_fresh-Acquired k env p q u s =
    import_fresh-Acquired k env p env.fresh _ refl u
      (enforce_before_fresh_import-Enforces env.rss (length k.imports) p q s)

bump_key_miss-Same :
    (reason : SessionPoolKeyMissReason) (p q : SessionPool)
    → Same p q
    → Same p (bump_key_miss reason q)
unfolding bump_key_miss count_miss
bump_key_miss-Same SessionPoolKeyMissReason.empty_pool p q s = record {
  imports = s.imports;
  reused = s.reused;
  acquired = s.acquired;
  policy = s.policy;
}
bump_key_miss-Same SessionPoolKeyMissReason.reuse_disabled p q s = record {
  imports = s.imports;
  reused = s.reused;
  acquired = s.acquired;
  policy = s.policy;
}
bump_key_miss-Same SessionPoolKeyMissReason.no_matching_key p q s = record {
  imports = s.imports;
  reused = s.reused;
  acquired = s.acquired;
  policy = s.policy;
}
bump_key_miss-Same stale_environment p q s = record {
  imports = s.imports;
  reused = s.reused;
  acquired = s.acquired;
  policy = s.policy;
}

is_live-eq : (live : Option ℕ) (epoch : ℕ) → is_live live epoch ≡ true → live ≡ some epoch
unfolding is_live
is_live-eq none epoch h = cc
is_live-eq (some live) epoch h = ap some ((==_iff live epoch).0 h)

is_live-ne : (live : Option ℕ) (epoch : ℕ) → is_live live epoch ≡ false → live ≢ some epoch
unfolding is_live
is_live-ne none epoch h e = cc
is_live-ne (some live) epoch h e = ground (arith, ==_iff live epoch)

reuse_entry-Acquired :
    (k : SessionPoolKey) (env : AcquireEnv) (x : Option LeanError) (e : PooledEntry)
    (rest : List PooledEntry) (p q : SessionPool)
    → Taken k p.free (some (e, rest))
    → Same p q
    → Acquired k env p (reuse_entry k env x e q)
unfolding reuse_entry hand_out bump_reused bump_stale_evictions
reuse_entry-Acquired k env (some x) e rest p q t s = failed x refl s.imports s.reused s.acquired
reuse_entry-Acquired k env none e rest p q t s =
    elim (Bool-cases (is_live env.live e.extension_registry_epoch)) [
      | inl f ↦ rw f (
          reused e rest t (is_live-eq env.live e.extension_registry_epoch f) refl
            ((sweep_stale-Same e.extension_registry_epoch (bump_reused q)).imports ∙ s.imports)
            ((sweep_stale-Same e.extension_registry_epoch (bump_reused q)).reused
              ∙ ap sat_inc s.reused)
            (sweep_stale-IsSwept e.extension_registry_epoch (bump_reused q)))
      | inr f ↦ rw f (
          acquire_fresh-Acquired k env p _
            (stale e rest t (is_live-ne env.live e.extension_registry_epoch f))
            (bump_key_miss-Same stale_environment p _ (record {
              imports = s.imports;
              reused = s.reused;
              acquired = s.acquired;
              policy = s.policy;
            })))
    ]

acquire_matched-Acquired :
    (k : SessionPoolKey) (env : AcquireEnv) (o : Option (PooledEntry × List PooledEntry))
    (p q : SessionPool)
    → Taken k p.free o
    → Same p q
    → Acquired k env p (acquire_matched k env o q)
unfolding acquire_matched
acquire_matched-Acquired k env none p q t s =
    acquire_fresh-Acquired k env p _ (absent t) (bump_key_miss-Same _ p q s)
acquire_matched-Acquired k env (some (e, rest)) p q t s =
    reuse_entry-Acquired k env env.rebuild e rest p (record q { free = rest }) t
      (record { imports = s.imports; reused = s.reused; acquired = s.acquired; policy = s.policy })

remembered-Acquired :
    (k : SessionPoolKey) (env : AcquireEnv) (p : SessionPool)
    → Acquired k env p
        (acquire_matched k env (take_matching k (remember_key k p).free) (remember_key k p))
unfolding remember_key
remembered-Acquired k env p =
    if_rule
      (λ (q : SessionPool). Acquired k env p (acquire_matched k env (take_matching k q.free) q))
      (contains k p.seen_keys)
      (acquire_matched-Acquired k env _ p _ (take_matching-Taken k p.free)
        (record { imports = refl; reused = refl; acquired = refl; policy = refl }))
      (acquire_matched-Acquired k env _ p _ (take_matching-Taken k p.free)
        (record { imports = refl; reused = refl; acquired = refl; policy = refl }))

-- A session stands either on the last pooled environment of its key, whose epoch is the live one, and
-- then no import is made; or on a fresh import, which is made only when no such environment can be
-- used, the imports are below `max_fresh_imports`, and under an RSS ceiling a sample is there and
-- below it. In both cases every environment left in the pool is of the session's epoch. A failed
-- acquisition counts as no import, no reuse and no acquisition.
pub acquire_with_profile-Acquired :
    (k : SessionPoolKey) (env : AcquireEnv) (p : SessionPool)
    → Acquired k env p (acquire_with_profile k env p)
unfolding acquire_with_profile acquire_unless
acquire_with_profile-Acquired k env p = go env.is_cancelled
  where
    go : (b : Bool) → Acquired k env p (acquire_unless b k env p)
    go true = failed cancelled refl refl refl refl
    go false = remembered-Acquired k env p
