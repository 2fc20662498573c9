-- ===== src/HostPool/Tests.antt =====
-- The host pool's theorems at a concrete pool of capacity two with one pooled environment.
use lean_rs.Common.{refl, false, none, some, [], ◌∷◌, sat_add, arith}
use lean_rs.HostPool.State.{SessionPoolKey, SessionPool}
use lean_rs.HostPool.Acquire.{LeanSession, ok, AcquireEnv, acquire_with_profile, release}
use lean_rs.HostPool.Acquire.Counted.{IsSound}
use lean_rs.HostPool.Acquire.Sound.{acquire_with_profile-IsSound, release-IsSound}
use lean_rs.HostPool.Acquire.Outcome.{Acquired, acquire_with_profile-Acquired}

abbrev init_key : SessionPoolKey
init_key = record { project_root = "/project"; imports = "Init" ∷ []; import_profile = "server" }

abbrev std_key : SessionPoolKey
std_key = record { project_root = "/project"; imports = "Std" ∷ []; import_profile = "server" }

abbrev one_pooled : SessionPool
one_pooled = record {
  capacity = 2;
  memory_policy = record { max_fresh_imports = some 3; max_rss_kib = some 4096 };
  free =
      record {
        key = init_key;
        environment = 100;
        import_stats = "init";
        extension_registry_epoch = 5;
      }
      ∷ [];
  seen_keys = init_key ∷ [];
  last_import_stats = some "init";
  stats = record {
    imports_performed = 1;
    reused = 0;
    acquired = 1;
    released_to_pool = 1;
    released_dropped = 0;
    drains = 0;
    drained = 0;
    fresh_import_refusals = 0;
    rss_samples = 1;
    rss_samples_unavailable = 0;
    key_hits = 0;
    key_misses = 1;
    distinct_keys_seen = 1;
    fresh_imports_avoided = 0;
    miss_empty_pool = 1;
    miss_reuse_disabled = 0;
    miss_no_matching_key = 0;
    miss_stale_environment = 0;
    stale_evictions = 0;
    last_miss_reason = none;
  };
}

one_pooled-IsSound : IsSound one_pooled
unfolding sat_add
one_pooled-IsSound = record {
  bounded = omega arith;
  counted = record { acquired = omega arith; hits = refl; avoided = refl; misses = omega arith };
  limited = omega arith;
}

abbrev std_session : LeanSession
std_session = record { environment = 200; import_stats = "std"; extension_registry_epoch = 6 }

abbrev import_std : AcquireEnv
import_std = record {
  is_cancelled = false;
  rebuild = none;
  live = some 6;
  rss = some 1000;
  fresh = ok std_session;
}

acquire_with_profile-Acquired_example :
    Acquired init_key import_std one_pooled (acquire_with_profile init_key import_std one_pooled)
acquire_with_profile-Acquired_example = acquire_with_profile-Acquired init_key import_std one_pooled

acquire_with_profile-IsSound_example :
    IsSound (acquire_with_profile std_key import_std one_pooled).1
acquire_with_profile-IsSound_example =
    acquire_with_profile-IsSound std_key import_std one_pooled one_pooled-IsSound

release-IsSound_example :
    IsSound (release (record { key = std_key; session = std_session }) one_pooled)
release-IsSound_example =
    release-IsSound (record { key = std_key; session = std_session }) one_pooled one_pooled-IsSound
