-- ===== src/HostPool/State.antt =====
-- crates/lean-rs-host/src/host/pool.rs: the configuration of `SessionPool`, its free list and its
-- counters. An environment is its object's address, and import stats are the text that
-- `memory_diagnostic` renders.
use lean_rs.Common.{
  ℕ, ◌-◌, max, String, Bool, true, false, Option, none, some, List, [], ◌∷◌, ◌++◌, length, filter,
  ltb, ◌==◌, ◌&&◌, sat_add, sat_inc, if◌then◌else◌, ◌≡◌, ◌↔◌, arith,
}
use lean_rs.Common.Equality.{Eq, ◌=?◌, =?_iff, string_eq, option_eq, list_eq}
use lean_rs.Common.Unique.{contains}

pub data SessionPoolKeyMissReason : Type 0 where
  empty_pool reuse_disabled no_matching_key stale_environment : SessionPoolKeyMissReason

pub record PoolStats : Type 0 where
  pub imports_performed : ℕ
  pub reused : ℕ
  pub acquired : ℕ
  pub released_to_pool : ℕ
  pub released_dropped : ℕ
  pub drains : ℕ
  pub drained : ℕ
  pub fresh_import_refusals : ℕ
  pub rss_samples : ℕ
  pub rss_samples_unavailable : ℕ
  pub key_hits : ℕ
  pub key_misses : ℕ
  pub distinct_keys_seen : ℕ
  pub fresh_imports_avoided : ℕ
  pub miss_empty_pool : ℕ
  pub miss_reuse_disabled : ℕ
  pub miss_no_matching_key : ℕ
  pub miss_stale_environment : ℕ
  pub stale_evictions : ℕ
  pub last_miss_reason : Option SessionPoolKeyMissReason

pub record SessionPoolMemoryPolicy : Type 0 where
  pub max_fresh_imports : Option ℕ
  pub max_rss_kib : Option ℕ

-- The builder methods of the policy.
unfoldable pub limit_fresh_imports : ℕ → SessionPoolMemoryPolicy → SessionPoolMemoryPolicy
limit_fresh_imports limit p = record p { max_fresh_imports = some (max limit 1) }

unfoldable pub limit_rss_kib : ℕ → SessionPoolMemoryPolicy → SessionPoolMemoryPolicy
limit_rss_kib limit p = record p { max_rss_kib = some (max limit 1) }

-- `LeanSessionImportProfile`, by its label.
pub record SessionPoolKey : Type 0 where
  pub project_root : String
  pub imports : List String
  pub import_profile : String

abbrev pool_key_beq : SessionPoolKey → SessionPoolKey → Bool
pool_key_beq a b =
    (a.project_root =? b.project_root)
    && (a.imports =? b.imports)
    && (a.import_profile =? b.import_profile)

pub pool_key_beq_iff : (a b : SessionPoolKey) → (pool_key_beq a b ≡ true) ↔ (a ≡ b)
pool_key_beq_iff a b = ground (
  arith,
  =?_iff a.project_root b.project_root,
  =?_iff a.imports b.imports,
  =?_iff a.import_profile b.import_profile,
)

instance abbrev pub pool_key_eq : Eq SessionPoolKey
pool_key_eq = record { beq = pool_key_beq; beq_iff = pool_key_beq_iff }

pub record PooledEntry : Type 0 where
  pub key : SessionPoolKey
  pub environment : ℕ
  pub import_stats : String
  pub extension_registry_epoch : ℕ

pub record SessionPool : Type 0 where
  pub capacity : ℕ
  pub memory_policy : SessionPoolMemoryPolicy
  pub free : List PooledEntry
  pub seen_keys : List SessionPoolKey
  pub last_import_stats : Option String
  pub stats : PoolStats

-- `SessionPool::with_memory_policy`.
unfoldable pub with_memory_policy : ℕ → SessionPoolMemoryPolicy → SessionPool
with_memory_policy capacity policy = record {
  capacity = capacity;
  memory_policy = policy;
  free = [];
  seen_keys = [];
  last_import_stats = none;
  stats = record {
    imports_performed = 0;
    reused = 0;
    acquired = 0;
    released_to_pool = 0;
    released_dropped = 0;
    drains = 0;
    drained = 0;
    fresh_import_refusals = 0;
    rss_samples = 0;
    rss_samples_unavailable = 0;
    key_hits = 0;
    key_misses = 0;
    distinct_keys_seen = 0;
    fresh_imports_avoided = 0;
    miss_empty_pool = 0;
    miss_reuse_disabled = 0;
    miss_no_matching_key = 0;
    miss_stale_environment = 0;
    stale_evictions = 0;
    last_miss_reason = none;
  };
}

-- The last entry that has the key, and the list without it: `rposition` and `remove`.
unfoldable pub take_first :
    Bool → PooledEntry → List PooledEntry → Option (PooledEntry × List PooledEntry)
take_first true e es = some (e, es)
take_first false e es = none

unfoldable pub take_later :
    SessionPoolKey
    → PooledEntry
    → List PooledEntry
    → Option (PooledEntry × List PooledEntry)
    → Option (PooledEntry × List PooledEntry)
unfolding take_first
take_later k e es (some (x, rest)) = some (x, e ∷ rest)
take_later k e es none = take_first (e.key =? k) e es

-- `PoolInner::take_matching`.
unfoldable pub take_matching :
    SessionPoolKey → List PooledEntry → Option (PooledEntry × List PooledEntry)
unfolding take_later
take_matching k [] = none
take_matching k (e ∷ es) = take_later k e es (take_matching k es)

unfoldable pub miss_reason : ℕ → List PooledEntry → SessionPoolKeyMissReason
miss_reason capacity free =
    if capacity == 0
    then reuse_disabled
    else if length free == 0
    then empty_pool
    else no_matching_key

unfoldable pub with_stats : PoolStats → SessionPool → SessionPool
with_stats s p = record p { stats = s }

unfoldable pub bump_reused : SessionPool → SessionPool
unfolding with_stats
bump_reused p =
    with_stats
      (record p.stats {
        reused = sat_inc p.stats.reused;
        acquired = sat_inc p.stats.acquired;
        key_hits = sat_inc p.stats.key_hits;
        fresh_imports_avoided = sat_inc p.stats.fresh_imports_avoided;
        last_miss_reason = none;
      })
      p

unfoldable pub bump_imported : SessionPool → SessionPool
unfolding with_stats
bump_imported p =
    with_stats
      (record p.stats {
        imports_performed = sat_inc p.stats.imports_performed;
        acquired = sat_inc p.stats.acquired;
      })
      p

-- `SessionPool::remember_seen_key`.
unfoldable pub remember_key : SessionPoolKey → SessionPool → SessionPool
remember_key k p = if contains k p.seen_keys then p else record p {
  seen_keys = p.seen_keys ++ k ∷ [];
  stats = record p.stats { distinct_keys_seen = length (p.seen_keys ++ k ∷ []) };
}

unfoldable pub bump_stale_evictions : ℕ → SessionPool → SessionPool
unfolding with_stats
bump_stale_evictions count p =
    with_stats (record p.stats { stale_evictions = sat_add p.stats.stale_evictions count }) p

unfoldable pub count_miss : SessionPoolKeyMissReason → PoolStats → PoolStats
count_miss empty_pool s = record s { miss_empty_pool = sat_inc s.miss_empty_pool }
count_miss reuse_disabled s = record s { miss_reuse_disabled = sat_inc s.miss_reuse_disabled }
count_miss no_matching_key s = record s { miss_no_matching_key = sat_inc s.miss_no_matching_key }
count_miss stale_environment s = record s {
  miss_stale_environment = sat_inc s.miss_stale_environment;
}

unfoldable pub bump_key_miss : SessionPoolKeyMissReason → SessionPool → SessionPool
unfolding with_stats count_miss
bump_key_miss reason p =
    with_stats
      (record (count_miss reason (record p.stats { key_misses = sat_inc p.stats.key_misses })) {
        last_miss_reason = some reason;
      })
      p

unfoldable pub bump_fresh_import_refusal : SessionPool → SessionPool
unfolding with_stats
bump_fresh_import_refusal p =
    with_stats (record p.stats { fresh_import_refusals = sat_inc p.stats.fresh_import_refusals }) p

unfoldable pub bump_rss_sample : Bool → SessionPool → SessionPool
unfolding with_stats
bump_rss_sample unavailable p =
    with_stats
      (record p.stats {
        rss_samples = sat_inc p.stats.rss_samples;
        rss_samples_unavailable =
            if unavailable
            then sat_inc p.stats.rss_samples_unavailable
            else p.stats.rss_samples_unavailable;
      })
      p

-- The entries of the epoch.
unfoldable pub live_entries : ℕ → List PooledEntry → List PooledEntry
live_entries live es = filter (λ (e : PooledEntry). live == e.extension_registry_epoch) es

-- `SessionPool::sweep_stale`.
unfoldable pub sweep_stale : ℕ → SessionPool → SessionPool
unfolding live_entries bump_stale_evictions
sweep_stale live p =
    let kept = live_entries live p.free in
    let evicted = length p.free - length kept in
    let p' = record p { free = kept } in
    if ltb 0 evicted then bump_stale_evictions evicted p' else p'
