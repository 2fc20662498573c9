-- ===== src/HostPool/Acquire/Counted.antt =====
-- The counters of `SessionPool` in crates/lean-rs-host/src/host/pool.rs, and the steps that move them.
use lean_rs.Common.{
  ℕ, String, ◌≤◌, ◌<◌, ◌≡◌, refl, Bool, Option, none, some, List, length, length-filter-le, sat_add,
  sat_inc, arith, if_rule,
}
use lean_rs.Common.Unique.{contains}
use lean_rs.HostPool.State.{
  PoolStats, SessionPoolKeyMissReason, empty_pool, reuse_disabled, no_matching_key,
  stale_environment, SessionPoolKey, pool_key_eq, PooledEntry, SessionPool, bump_reused,
  bump_imported, remember_key, bump_stale_evictions, count_miss, bump_key_miss,
  bump_fresh_import_refusal, bump_rss_sample, live_entries, sweep_stale,
}

-- Hits and imports make up the acquisitions, and the misses by reason make up the misses.
pub record IsCounted (s : PoolStats) : Type 0 where
  pub acquired : s.acquired ≡ sat_add s.reused s.imports_performed
  pub hits : s.key_hits ≡ s.reused
  pub avoided : s.fresh_imports_avoided ≡ s.reused
  pub misses :
      s.key_misses
      ≡ sat_add
          (sat_add (sat_add s.miss_empty_pool s.miss_reuse_disabled) s.miss_no_matching_key)
          s.miss_stale_environment

abbrev pub AtMost : ℕ → Option ℕ → Type 0
AtMost n none = Unit {0}
AtMost n (some limit) = n ≤ limit

pub record IsSound (p : SessionPool) : Type 0 where
  pub bounded : length p.free ≤ p.capacity
  pub counted : IsCounted p.stats
  pub limited : AtMost p.stats.imports_performed p.memory_policy.max_fresh_imports

abbrev pub Below : ℕ → Option ℕ → Type 0
Below n none = Unit {0}
Below n (some limit) = n < limit

IsCounted-count_miss :
    (reason : SessionPoolKeyMissReason) (s : PoolStats)
    → IsCounted s
    → IsCounted (count_miss reason (record s { key_misses = sat_inc s.key_misses }))
unfolding count_miss sat_add
IsCounted-count_miss empty_pool s c = record {
  acquired = c.acquired;
  hits = c.hits;
  avoided = c.avoided;
  misses = omega (arith, c.misses);
}
IsCounted-count_miss reuse_disabled s c = record {
  acquired = c.acquired;
  hits = c.hits;
  avoided = c.avoided;
  misses = omega (arith, c.misses);
}
IsCounted-count_miss no_matching_key s c = record {
  acquired = c.acquired;
  hits = c.hits;
  avoided = c.avoided;
  misses = omega (arith, c.misses);
}
IsCounted-count_miss stale_environment s c = record {
  acquired = c.acquired;
  hits = c.hits;
  avoided = c.avoided;
  misses = omega (arith, c.misses);
}

imports-count_miss :
    (reason : SessionPoolKeyMissReason) (s : PoolStats)
    → (count_miss reason s).imports_performed ≡ s.imports_performed
unfolding count_miss
imports-count_miss empty_pool s = refl
imports-count_miss reuse_disabled s = refl
imports-count_miss no_matching_key s = refl
imports-count_miss stale_environment s = refl

pub bump_key_miss-IsSound :
    (reason : SessionPoolKeyMissReason) (p : SessionPool)
    → IsSound p
    → IsSound (bump_key_miss reason p)
unfolding bump_key_miss
bump_key_miss-IsSound reason p s = record {
  bounded = s.bounded;
  counted = record { acquired = c.acquired; hits = c.hits; avoided = c.avoided; misses = c.misses };
  limited =
      rw (imports-count_miss reason (record p.stats { key_misses = sat_inc p.stats.key_misses }))
        s.limited;
}
  where
    c : IsCounted (count_miss reason (record p.stats { key_misses = sat_inc p.stats.key_misses }))
    c = IsCounted-count_miss reason p.stats s.counted

pub bump_reused-IsSound : (p : SessionPool) → IsSound p → IsSound (bump_reused p)
unfolding bump_reused sat_add
bump_reused-IsSound p s = record {
  bounded = s.bounded;
  counted = record {
    acquired = omega (arith, s.counted.acquired);
    hits = omega (arith, s.counted.hits);
    avoided = omega (arith, s.counted.avoided);
    misses = s.counted.misses;
  };
  limited = s.limited;
}

pub bump_imported-IsSound :
    (x : Option String) (p : SessionPool)
    → IsSound p
    → Below p.stats.imports_performed p.memory_policy.max_fresh_imports
    → IsSound (bump_imported (record p { last_import_stats = x }))
unfolding bump_imported sat_add
bump_imported-IsSound x p s b = record {
  bounded = s.bounded;
  counted = record {
    acquired = omega (arith, s.counted.acquired);
    hits = s.counted.hits;
    avoided = s.counted.avoided;
    misses = s.counted.misses;
  };
  limited = next p.memory_policy.max_fresh_imports p.stats.imports_performed b;
}
  where
    next : (limit : Option ℕ) (n : ℕ) → Below n limit → AtMost (sat_inc n) limit
    next none n h = tt
    next (some l) n h = omega arith

-- A step that moves only counters which the invariant does not read.
pub bump_fresh_import_refusal-IsSound :
    (p : SessionPool) → IsSound p → IsSound (bump_fresh_import_refusal p)
unfolding bump_fresh_import_refusal
bump_fresh_import_refusal-IsSound p s = record {
  bounded = s.bounded;
  counted = record {
    acquired = s.counted.acquired;
    hits = s.counted.hits;
    avoided = s.counted.avoided;
    misses = s.counted.misses;
  };
  limited = s.limited;
}

pub bump_rss_sample-IsSound :
    (b : Bool) (p : SessionPool) → IsSound p → IsSound (bump_rss_sample b p)
unfolding bump_rss_sample
bump_rss_sample-IsSound b p s = record {
  bounded = s.bounded;
  counted = record {
    acquired = s.counted.acquired;
    hits = s.counted.hits;
    avoided = s.counted.avoided;
    misses = s.counted.misses;
  };
  limited = s.limited;
}

pub bump_stale_evictions-IsSound :
    (n : ℕ) (p : SessionPool) → IsSound p → IsSound (bump_stale_evictions n p)
unfolding bump_stale_evictions
bump_stale_evictions-IsSound n p s = record {
  bounded = s.bounded;
  counted = record {
    acquired = s.counted.acquired;
    hits = s.counted.hits;
    avoided = s.counted.avoided;
    misses = s.counted.misses;
  };
  limited = s.limited;
}

pub refree-IsSound :
    (p : SessionPool) (es : List PooledEntry)
    → length es ≤ length p.free
    → IsSound p
    → IsSound (record p { free = es })
refree-IsSound p es h s = record {
  bounded = omega (arith, s.bounded);
  counted = s.counted;
  limited = s.limited;
}

pub sweep_stale-IsSound : (live : ℕ) (p : SessionPool) → IsSound p → IsSound (sweep_stale live p)
unfolding sweep_stale live_entries
sweep_stale-IsSound live p s = if_rule IsSound _ (bump_stale_evictions-IsSound _ _ kept) kept
  where
    kept : IsSound (record p { free = live_entries live p.free })
    kept = refree-IsSound p (live_entries live p.free) (length-filter-le _ p.free) s

pub remember_key-IsSound :
    (k : SessionPoolKey) (p : SessionPool) → IsSound p → IsSound (remember_key k p)
unfolding remember_key
remember_key-IsSound k p s = if_rule IsSound (contains k p.seen_keys) s (record {
  bounded = s.bounded;
  counted = record {
    acquired = s.counted.acquired;
    hits = s.counted.hits;
    avoided = s.counted.avoided;
    misses = s.counted.misses;
  };
  limited = s.limited;
})
