-- ===== src/WorkerChild/Sessions/Served.antt =====
-- What a child serves after an open: `open_or_reuse_host_session` of
-- crates/lean-rs-worker-child/src/child.rs by its answer.
use lean_rs.Common.{
  ℕ, ◌+◌, ◌-◌, ◌≡◌, refl, inl, inr, true, false, Option, none, some, List, [], ◌∷◌, length,
  Bool-cases, if_rule, String,
}
use lean_rs.Common.Equality.{◌=?◌, beq_sound}
use lean_rs.Protocol.Message.{
  LeanWorkerImportStats, Response, error, host_session_opened, host_session_reused,
}
use lean_rs.WorkerChild.Key.{HostSessionKey, host_key_eq}
use lean_rs.WorkerChild.Sessions.{
  HostSessionState, ChildState, OpenEnv, Imported, session, import_fails, is_stale, any_stale,
  stale_current, keep_current, evict_stale_host_sessions, behind, take_parked, park, evict_rounds,
  make_room, find_anchor, import_session, new_anchor, open_fresh, open_parked, open_current,
  open_or_reuse_host_session,
}
use lean_rs.WorkerChild.Sessions.Swept.{
  Among, IsHeldBy, both_false, evict_stale-IsLive, evict_stale-before,
}
use lean_rs.WorkerChild.Sessions.Bounded.{evict_rounds-length}

-- The session is one that the child held before, the one that was asked for, and it is not stale.
pub record IsAnswer (before : ChildState) (k : HostSessionKey) (live : Option ℕ)
    (stats : LeanWorkerImportStats) (c : ChildState) : Type 0 where
  pub current : HostSessionState
  pub held : c.host_session ≡ some current
  pub known : IsHeldBy before current
  pub key : current.key ≡ k
  pub import_stats : current.import_stats ≡ stats
  pub fresh : is_stale live current ≡ false

abbrev pub imported_session : HostSessionKey → ℕ → ℕ → LeanWorkerImportStats → HostSessionState
imported_session k id epoch stats = record {
  key = k;
  env = id;
  extension_registry_epoch = epoch;
  import_stats = stats;
}

-- An answer `HostSessionOpened`: exactly the session that was imported is served, or the sweep after
-- the import has taken it, since its epoch is not the one then read.
pub data Opening (k : HostSessionKey) (env : OpenEnv) (stats : LeanWorkerImportStats)
    (c : ChildState) : Type 0 where
  served :
      (id epoch : ℕ)
      → env.imported ≡ session id epoch stats
      → is_stale env.live_after (imported_session k id epoch stats) ≡ false
      → c.host_session ≡ some (imported_session k id epoch stats)
      → Opening k env stats c
  swept :
      (id epoch : ℕ)
      → env.imported ≡ session id epoch stats
      → is_stale env.live_after (imported_session k id epoch stats) ≡ true
      → c.host_session ≡ none
      → Opening k env stats c

abbrev pub Serves : ChildState → HostSessionKey → OpenEnv → Response × ChildState → Type 0
Serves before k env (host_session_reused stats, c) = IsAnswer before k env.live_before stats c
Serves before k env (host_session_opened stats, c) = Opening k env stats c
Serves before k env (error code message, c) = c.host_session ≡ none
Serves before k env (r, c) = ⊥

-- What was held after the sweep was held before it.
Serves-before :
    (b c : ChildState) (k : HostSessionKey) (env : OpenEnv) (r : Response) (c' : ChildState)
    → ((s : HostSessionState) → IsHeldBy b s → IsHeldBy c s)
    → Serves b k env (r, c')
    → Serves c k env (r, c')
Serves-before b c k env (host_session_reused stats) c' back h = record {
  current = h.current;
  held = h.held;
  known = back h.current h.known;
  key = h.key;
  import_stats = h.import_stats;
  fresh = h.fresh;
}
Serves-before b c k env _ c' back h = h

abbrev TakesLive :
    HostSessionKey
    → Option ℕ
    → List HostSessionState
    → Option (HostSessionState × List HostSessionState)
    → Type 0
TakesLive k live ss none = Unit {0}
TakesLive k live ss (some (s, rest)) = (s.key ≡ k) × (is_stale live s ≡ false) × Among s ss

take_parked-TakesLive :
    (k : HostSessionKey) (live : Option ℕ) (ss : List HostSessionState)
    → any_stale live ss ≡ false
    → TakesLive k live ss (take_parked k ss)
unfolding take_parked any_stale
take_parked-TakesLive k live [] h = tt
take_parked-TakesLive k live (s ∷ ss) h =
    let (f, g) = both_false (is_stale live s) (any_stale live ss) h in
    elim (Bool-cases (s.key =? k)) [
      | inl t ↦ rw t (beq_sound s.key k t, f, inl refl)
      | inr n ↦ rw n (further (take_parked k ss) (take_parked-TakesLive k live ss g))
    ]
  where
    further :
        (o : Option (HostSessionState × List HostSessionState))
        → TakesLive k live ss o
        → TakesLive k live (s ∷ ss) (behind s o)
    further none t = tt
    further (some (t, rest)) h = (h.0, h.1, inr h.2)

module _ (capacity : ℕ) (k : HostSessionKey) (env : OpenEnv) where
  swept-Opening :
      (id epoch : ℕ) (stats : LeanWorkerImportStats) (c : ChildState)
      → env.imported ≡ session id epoch stats
      → Opening k env stats (
          evict_stale_host_sessions env.live_after env.clears
            (record c { host_session = some (imported_session k id epoch stats) }))
  unfolding evict_stale_host_sessions stale_current keep_current
  swept-Opening id epoch stats c i =
      elim (Bool-cases (is_stale env.live_after (imported_session k id epoch stats))) [
        | inl t ↦ rw t (swept id epoch i t refl)
        | inr f ↦ rw f (
            if_rule (Opening k env stats) (any_stale env.live_after c.parked)
              (served id epoch i f refl) (served id epoch i f refl))
      ]

  import_session-Serves :
      (before c : ChildState) (i : Imported)
      → env.imported ≡ i
      → c.host_session ≡ none
      → Serves before k env (import_session k env i c)
  unfolding import_session
  import_session-Serves before c (import_fails code message) e gone = gone
  import_session-Serves before c (session id epoch stats) e gone = swept-Opening id epoch stats c e

  new_anchor-Serves :
      (before c : ChildState) (e : Option (String × String))
      → c.host_session ≡ none
      → Serves before k env (new_anchor k env e c)
  unfolding new_anchor
  new_anchor-Serves before c (some (code, message)) gone = gone
  new_anchor-Serves before c none gone = import_session-Serves before _ env.imported refl gone

  open_fresh-Serves : (before c : ChildState) → Serves before k env (open_fresh capacity k env c)
  unfolding open_fresh make_room
  open_fresh-Serves before c =
      if_rule (Serves before k env) (find_anchor k roomy.anchors)
        (import_session-Serves before roomy env.imported refl gone)
        (new_anchor-Serves before roomy env.anchor_error gone)
    where
      rounds : ℕ
      rounds = length (park c.host_session c.parked) + 1 - capacity

      full : ChildState
      full = record c { host_session = none; parked = park c.host_session c.parked }

      roomy : ChildState
      roomy = evict_rounds rounds env.clears full

      gone : roomy.host_session ≡ none
      gone = (evict_rounds-length rounds env.clears full).1

  open_parked-Serves :
      (c : ChildState) (o : Option (HostSessionState × List HostSessionState))
      → TakesLive k env.live_before c.parked o
      → Serves c k env (open_parked capacity k env c o)
  unfolding open_parked
  open_parked-Serves c none t = open_fresh-Serves c c
  open_parked-Serves c (some (s, rest)) t = record {
    current = s;
    held = refl;
    known = inr t.2;
    key = t.0;
    import_stats = refl;
    fresh = t.1;
  }

  open_current-Serves :
      (c : ChildState) (o : Option HostSessionState)
      → c.host_session ≡ o
      → stale_current env.live_before o ≡ false
      → any_stale env.live_before c.parked ≡ false
      → Serves c k env (open_current capacity k env c o)
  unfolding open_current stale_current
  open_current-Serves c none e f g =
      open_parked-Serves c _ (take_parked-TakesLive k env.live_before c.parked g)
  open_current-Serves c (some s) e f g = elim (Bool-cases (s.key =? k)) [
    | inl t ↦ rw t (record {
      current = s;
      held = e;
      known = inl e;
      key = beq_sound s.key k t;
      import_stats = refl;
      fresh = f;
    })
    | inr n ↦ rw n (open_parked-Serves c _ (take_parked-TakesLive k env.live_before c.parked g))
  ]

  -- Whatever the child holds and whatever is stale: after `HostSessionReused` it serves a session
  -- that it held before, of the key that was asked for, with the statistics that it reported, at the
  -- epoch that was live before; after `HostSessionOpened` it serves the environment that was just
  -- imported, under that key and with the statistics and the epoch of its import, when that epoch was
  -- still live after the import, and none when it was not; and after an error it serves none.
  pub open_or_reuse-Serves :
      (c : ChildState) → Serves c k env (open_or_reuse_host_session capacity k env c)
  unfolding open_or_reuse_host_session
  open_or_reuse-Serves c =
      let live = evict_stale-IsLive env.live_before env.clears c in
      let swept : ChildState = evict_stale_host_sessions env.live_before env.clears c in
      Serves-before swept c k env _ _ (evict_stale-before env.live_before env.clears c)
        (open_current-Serves swept swept.host_session refl live.0 live.1)
