-- ===== src/WorkerChild/Sessions/Bounded.antt =====
-- How many environments a child holds: `open_or_reuse_host_session` of
-- crates/lean-rs-worker-child/src/child.rs against its capacity.
use lean_rs.Common.{
  ℕ, zero, suc, ◌+◌, ◌-◌, ◌≤◌, ◌≡◌, refl, Bool, not, ◌||◌, Option, none, some, List, [], ◌∷◌,
  length, length-append, length-filter-le, arith, if_rule, String,
}
use lean_rs.Common.Equality.{◌=?◌}
use lean_rs.Protocol.Message.{Response}
use lean_rs.WorkerChild.Key.{HostSessionKey, host_key_eq}
use lean_rs.WorkerChild.Sessions.{
  HostSessionState, ChildState, OpenEnv, Imported, session, import_fails, is_stale, any_stale,
  stale_current, keep_current, evict_stale_host_sessions, behind, take_parked, park, drop_first,
  evict_first, evict_rounds, make_room, find_anchor, import_session, new_anchor, open_fresh,
  open_parked, open_current, open_or_reuse_host_session,
}

abbrev current_count : Option HostSessionState → ℕ
current_count none = 0
current_count (some s) = 1

-- The environments that the child holds.
abbrev pub held_count : ChildState → ℕ
held_count c = length c.parked + current_count c.host_session

keep_current-le :
    (live : Option ℕ) (o : Option HostSessionState)
    → current_count (keep_current live o) ≤ current_count o
unfolding keep_current
keep_current-le live none = omega arith
keep_current-le live (some s) =
    if_rule (λ (o : Option HostSessionState). current_count o ≤ 1) (is_stale live s) (omega arith)
      (omega arith)

evict_stale-le :
    (live : Option ℕ) (clears : Bool) (c : ChildState)
    → held_count (evict_stale_host_sessions live clears c) ≤ held_count c
unfolding evict_stale_host_sessions
evict_stale-le live clears c =
    if_rule (λ (d : ChildState). held_count d ≤ held_count c)
      (stale_current live c.host_session || any_stale live c.parked)
      (omega (
        arith,
        length-filter-le {0} (λ (s : HostSessionState). not (is_stale live s)) c.parked,
        keep_current-le live c.host_session,
      ))
      (omega arith)

length-drop_first : (ss : List HostSessionState) → length (drop_first ss) ≡ length ss - 1
unfolding drop_first
length-drop_first [] = omega arith
length-drop_first (s ∷ ss) = omega arith

pub evict_rounds-length :
    (n : ℕ) (clears : Bool) (c : ChildState)
    → (length (evict_rounds n clears c).parked ≡ length c.parked - n)
      × ((evict_rounds n clears c).host_session ≡ c.host_session)
unfolding evict_rounds evict_first
evict_rounds-length zero clears c = (omega arith, refl)
evict_rounds-length (suc n) clears c =
    let (l, h) = evict_rounds-length n clears (evict_first clears c) in
    (omega (arith, l, length-drop_first c.parked), h)

length-park :
    (o : Option HostSessionState) (ss : List HostSessionState)
    → length (park o ss) ≡ length ss + current_count o
unfolding park
length-park none ss = omega arith
length-park (some s) ss = omega (arith, length-append ss (s ∷ []))

abbrev TakesOne : List HostSessionState → Option (HostSessionState × List HostSessionState) → Type 0
TakesOne ss none = Unit {0}
TakesOne ss (some (s, rest)) = length ss ≡ length rest + 1

take_parked-TakesOne :
    (k : HostSessionKey) (ss : List HostSessionState) → TakesOne ss (take_parked k ss)
unfolding take_parked
take_parked-TakesOne k [] = tt
take_parked-TakesOne k (s ∷ ss) =
    if_rule (TakesOne (s ∷ ss)) (s.key =? k) {x = some (s, ss)} {y = behind s (take_parked k ss)}
      (omega arith) (further (take_parked k ss) (take_parked-TakesOne k ss))
  where
    further :
        (o : Option (HostSessionState × List HostSessionState))
        → TakesOne ss o
        → TakesOne (s ∷ ss) (behind s o)
    further none h = tt
    further (some (t, rest)) h = omega arith

module _ (capacity : ℕ) (k : HostSessionKey) (env : OpenEnv) where
  abbrev Fits : Response × ChildState → Type 0
  Fits (r, c) = held_count c ≤ capacity

  import_session-Fits :
      (c : ChildState) (i : Imported)
      → c.host_session ≡ none
      → length c.parked + 1 ≤ capacity
      → Fits (import_session k env i c)
  unfolding import_session
  import_session-Fits c (import_fails code message) e h = rw e (omega arith)
  import_session-Fits c (session id epoch stats) e h =
      omega (arith, evict_stale-le env.live_after env.clears)

  new_anchor-Fits :
      (c : ChildState) (e : Option (String × String))
      → c.host_session ≡ none
      → length c.parked + 1 ≤ capacity
      → Fits (new_anchor k env e c)
  unfolding new_anchor
  new_anchor-Fits c (some (code, message)) e h = rw e (omega arith)
  new_anchor-Fits c none e h = import_session-Fits _ env.imported e h

  open_fresh-Fits : (c : ChildState) → 1 ≤ capacity → Fits (open_fresh capacity k env c)
  unfolding open_fresh make_room
  open_fresh-Fits c pos =
      if_rule Fits (find_anchor k roomy.anchors) (import_session-Fits roomy env.imported gone room)
        (new_anchor-Fits roomy env.anchor_error gone room)
    where
      parked : List HostSessionState
      parked = park c.host_session c.parked

      full : ChildState
      full = record c { host_session = none; parked = parked }

      roomy : ChildState
      roomy = evict_rounds (length parked + 1 - capacity) env.clears full

      gone : roomy.host_session ≡ none
      gone = (evict_rounds-length (length parked + 1 - capacity) env.clears full).1

      room : length roomy.parked + 1 ≤ capacity
      room = omega (arith, (evict_rounds-length (length parked + 1 - capacity) env.clears full).0)

  open_parked-Fits :
      (c : ChildState) (o : Option (HostSessionState × List HostSessionState))
      → 1 ≤ capacity
      → held_count c ≤ capacity
      → TakesOne c.parked o
      → Fits (open_parked capacity k env c o)
  unfolding open_parked
  open_parked-Fits c none pos h t = open_fresh-Fits c pos
  open_parked-Fits c (some (s, rest)) pos h t = omega (arith, length-park c.host_session rest)

  open_current-Fits :
      (c : ChildState) (o : Option HostSessionState)
      → 1 ≤ capacity
      → held_count c ≤ capacity
      → Fits (open_current capacity k env c o)
  unfolding open_current
  open_current-Fits c none pos h = open_parked-Fits c _ pos h (take_parked-TakesOne k c.parked)
  open_current-Fits c (some s) pos h =
      if_rule Fits (s.key =? k) h (open_parked-Fits c _ pos h (take_parked-TakesOne k c.parked))

  -- An open never leaves more environments in the child than its capacity, whatever is stale and
  -- whatever fails, where there were no more before and the capacity is at least one.
  pub open_or_reuse-Bounded :
      (c : ChildState)
      → 1 ≤ capacity
      → held_count c ≤ capacity
      → held_count (open_or_reuse_host_session capacity k env c).1 ≤ capacity
  unfolding open_or_reuse_host_session
  open_or_reuse-Bounded c pos h =
      open_current-Fits swept swept.host_session pos
        (omega (arith, evict_stale-le env.live_before env.clears c))
    where
      swept : ChildState
      swept = evict_stale_host_sessions env.live_before env.clears c
