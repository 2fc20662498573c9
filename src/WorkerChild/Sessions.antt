-- ===== src/WorkerChild/Sessions.antt =====
-- crates/lean-rs-worker-child/src/child.rs: the imported environments that one child holds, the one it
-- serves and those that it has parked. What the Lean runtime answers is an argument: the live epoch
-- of the extension registry, the anchor that is built, the session that is imported, and whether the
-- snapshot cache is cleared. An environment has an id, and the cache pins those it has snapshots of.
pub mod Held
pub mod Mirror
pub mod Spelled
pub mod Agree
pub mod Bounded
pub mod Swept
pub mod Served
use lean_rs.Common.{
  ℕ, zero, suc, ◌+◌, ◌-◌, max, String, Bool, true, false, not, ◌&&◌, ◌||◌, Option, none, some, List,
  [], ◌∷◌, ◌++◌, map, filter, length, ◌==◌, if◌then◌else◌,
}
use lean_rs.Common.Options
use lean_rs.Common.Equality.{◌=?◌, string_eq}
use lean_rs.Protocol.Message.{
  LeanWorkerImportStats, Response, error, host_session_opened, host_session_reused,
}
use lean_rs.WorkerChild.Key.{HostSessionMode, mode_eq, HostSessionKey, host_key_eq}

abbrev pub session_pool_default_capacity : ℕ
session_pool_default_capacity = 4

-- `session_pool_capacity`, of the number in the environment variable, if there is one.
unfoldable pub session_pool_capacity : Option ℕ → ℕ
session_pool_capacity raw = max (Options.get_or raw session_pool_default_capacity) 1

pub record HostAnchor : Type 0 where
  pub project_root : String
  pub mode : HostSessionMode

-- `HostAnchor::matches`.
unfoldable pub matches : String → HostSessionMode → HostAnchor → Bool
matches project_root mode a = (a.project_root =? project_root) && (a.mode =? mode)

pub record HostSessionState : Type 0 where
  pub key : HostSessionKey
  pub env : ℕ
  pub extension_registry_epoch : ℕ
  pub import_stats : LeanWorkerImportStats

-- What `serve_stdio` keeps between two requests; the snapshots are the runtime's.
pub record ChildState : Type 0 where
  pub anchors : List HostAnchor
  pub host_session : Option HostSessionState
  pub parked : List HostSessionState
  pub snapshots : List ℕ

pub data Imported : Type 0 where
  session : ℕ → ℕ → LeanWorkerImportStats → Imported
  import_fails : String → String → Imported

pub record OpenEnv : Type 0 where
  pub live_before : Option ℕ
  pub live_after : Option ℕ
  pub clears : Bool
  pub anchor_error : Option (String × String)
  pub imported : Imported

-- `clear_module_snapshot_cache`: all or nothing, and a failure is dropped.
unfoldable pub clear_snapshots : Bool → List ℕ → List ℕ
clear_snapshots true snapshots = []
clear_snapshots false snapshots = snapshots

-- A failed read of the epoch makes every session stale.
unfoldable pub is_stale : Option ℕ → HostSessionState → Bool
is_stale none s = true
is_stale (some live) s = not (live == s.extension_registry_epoch)

unfoldable pub any_stale : Option ℕ → List HostSessionState → Bool
any_stale live [] = false
any_stale live (s ∷ ss) = is_stale live s || any_stale live ss

unfoldable pub stale_current : Option ℕ → Option HostSessionState → Bool
stale_current live none = false
stale_current live (some s) = is_stale live s

unfoldable pub keep_current : Option ℕ → Option HostSessionState → Option HostSessionState
keep_current live none = none
keep_current live (some s) = if is_stale live s then none else some s

-- `evict_stale_host_sessions`. With no session held nothing is stale.
unfoldable pub evict_stale_host_sessions : Option ℕ → Bool → ChildState → ChildState
unfolding is_stale any_stale stale_current keep_current clear_snapshots
evict_stale_host_sessions live clears c =
    if stale_current live c.host_session || any_stale live c.parked
    then record c {
      snapshots = clear_snapshots clears c.snapshots;
      parked = filter (λ s. not (is_stale live s)) c.parked;
      host_session = keep_current live c.host_session;
    }
    else c

unfoldable pub behind :
    HostSessionState
    → Option (HostSessionState × List HostSessionState)
    → Option (HostSessionState × List HostSessionState)
behind s none = none
behind s (some (t, rest)) = some (t, s ∷ rest)

-- The first parked session of the key, and the others.
unfoldable pub take_parked :
    HostSessionKey → List HostSessionState → Option (HostSessionState × List HostSessionState)
unfolding behind
take_parked k [] = none
take_parked k (s ∷ ss) =
    let found = behind s (take_parked k ss) in if s.key =? k then some (s, ss) else found

unfoldable pub park : Option HostSessionState → List HostSessionState → List HostSessionState
park none parked = parked
park (some s) parked = parked ++ s ∷ []

unfoldable pub drop_first : List HostSessionState → List HostSessionState
drop_first [] = []
drop_first (s ∷ ss) = ss

-- One round of the eviction: the cache is cleared, and then the least recently used session goes.
unfoldable pub evict_first : Bool → ChildState → ChildState
unfolding clear_snapshots drop_first
evict_first clears c = record c {
  snapshots = clear_snapshots clears c.snapshots;
  parked = drop_first c.parked;
}

-- `while parked.len() >= capacity`, which makes `rounds` rounds.
unfoldable pub evict_rounds : ℕ → Bool → ChildState → ChildState
unfolding evict_first
evict_rounds zero clears c = c
evict_rounds (suc n) clears c = evict_rounds n clears (evict_first clears c)

-- The current session is parked, and the pool makes room for the next one.
unfoldable pub make_room : ℕ → Bool → ChildState → ChildState
unfolding park evict_rounds
make_room capacity clears c =
    let parked = park c.host_session c.parked in
    evict_rounds (length parked + 1 - capacity) clears
      (record c { host_session = none; parked = parked })

unfoldable pub find_anchor : HostSessionKey → List HostAnchor → Bool
unfolding matches
find_anchor k [] = false
find_anchor k (a ∷ rest) = if matches k.project_root k.mode a then true else find_anchor k rest

-- The import, once the anchor is there.
unfoldable pub import_session :
    HostSessionKey → OpenEnv → Imported → ChildState → Response × ChildState
unfolding evict_stale_host_sessions
import_session k env (import_fails code message) c = (error code message, c)
import_session k env (session id epoch stats) c = (
  host_session_opened stats,
  evict_stale_host_sessions env.live_after env.clears (record c {
    host_session =
        some (record { key = k; env = id; extension_registry_epoch = epoch; import_stats = stats });
  }),
)

unfoldable pub new_anchor :
    HostSessionKey → OpenEnv → Option (String × String) → ChildState → Response × ChildState
unfolding import_session
new_anchor k env (some (code, message)) c = (error code message, c)
new_anchor k env none c = import_session k env env.imported (record c {
  anchors = c.anchors ++ record { project_root = k.project_root; mode = k.mode } ∷ [];
})

unfoldable pub open_fresh : ℕ → HostSessionKey → OpenEnv → ChildState → Response × ChildState
unfolding make_room find_anchor import_session new_anchor
open_fresh capacity k env c =
    let roomy = make_room capacity env.clears c in
    if find_anchor k roomy.anchors
    then import_session k env env.imported roomy
    else new_anchor k env env.anchor_error roomy

unfoldable pub open_parked :
    ℕ
    → HostSessionKey
    → OpenEnv
    → ChildState
    → Option (HostSessionState × List HostSessionState)
    → Response × ChildState
unfolding park open_fresh
open_parked capacity k env c none = open_fresh capacity k env c
open_parked capacity k env c (some (s, rest)) = (
  host_session_reused s.import_stats,
  record c { host_session = some s; parked = park c.host_session rest },
)

unfoldable pub open_current :
    ℕ → HostSessionKey → OpenEnv → ChildState → Option HostSessionState → Response × ChildState
unfolding open_parked take_parked
open_current capacity k env c none = open_parked capacity k env c (take_parked k c.parked)
open_current capacity k env c (some s) =
    if s.key =? k
    then (host_session_reused s.import_stats, c)
    else open_parked capacity k env c (take_parked k c.parked)

-- `open_or_reuse_host_session`.
unfoldable pub open_or_reuse_host_session :
    ℕ → HostSessionKey → OpenEnv → ChildState → Response × ChildState
unfolding evict_stale_host_sessions open_current
open_or_reuse_host_session capacity k env c =
    let swept = evict_stale_host_sessions env.live_before env.clears c in
    open_current capacity k env swept swept.host_session

-- The keys of the sessions that are held, the current one last.
abbrev pub held_keys : Option HostSessionState → List HostSessionState → List HostSessionKey
held_keys none parked = map (λ (s : HostSessionState). s.key) parked
held_keys (some c) parked = map (λ (s : HostSessionState). s.key) parked ++ c.key ∷ []
