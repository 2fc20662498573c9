-- ===== src/WorkerChild/Sessions/Swept.antt =====
-- The sweep of stale sessions: `evict_stale_host_sessions` of
-- crates/lean-rs-worker-child/src/child.rs.
use lean_rs.Common.{
  ℕ, ◌≡◌, refl, ◌⊎◌, inl, inr, Bool, false, not, ◌||◌, Option, none, some, List, [], ◌∷◌, filter,
  arith, Bool-cases, if_rule,
}
use lean_rs.WorkerChild.Sessions.{
  HostSessionState, ChildState, is_stale, any_stale, stale_current, keep_current,
  evict_stale_host_sessions,
}

-- After the sweep nothing that is held is stale.
keep_current-IsLive :
    (live : Option ℕ) (o : Option HostSessionState)
    → stale_current live (keep_current live o) ≡ false
unfolding stale_current keep_current
keep_current-IsLive live none = refl
keep_current-IsLive live (some s) = elim (Bool-cases (is_stale live s)) [
  | inl t ↦ rw t refl
  | inr f ↦ rw f f
]

filter-IsLive :
    (live : Option ℕ) (ss : List HostSessionState)
    → any_stale live (filter (λ (s : HostSessionState). not (is_stale live s)) ss) ≡ false
unfolding any_stale
filter-IsLive live [] = refl
filter-IsLive live (s ∷ ss) = elim (Bool-cases (is_stale live s)) [
  | inl t ↦ rw t (filter-IsLive live ss)
  | inr f ↦ rw f (rw f (filter-IsLive live ss))
]

-- Neither the current session nor a parked one is stale.
abbrev pub IsLive : Option ℕ → ChildState → Type 0
IsLive live c = (stale_current live c.host_session ≡ false) × (any_stale live c.parked ≡ false)

pub both_false : (a b : Bool) → (a || b) ≡ false → (a ≡ false) × (b ≡ false)
both_false a b h = ground arith

pub evict_stale-IsLive :
    (live : Option ℕ) (clears : Bool) (c : ChildState)
    → IsLive live (evict_stale_host_sessions live clears c)
unfolding evict_stale_host_sessions
evict_stale-IsLive live clears c =
    elim (Bool-cases (stale_current live c.host_session || any_stale live c.parked)) [
      | inl t ↦ rw t (keep_current-IsLive live c.host_session, filter-IsLive live c.parked)
      | inr f ↦ rw f (both_false _ _ f)
    ]

abbrev pub Among : HostSessionState → List HostSessionState → Type 0
Among s [] = ⊥
Among s (x ∷ xs) = (x ≡ s) ⊎ Among s xs

-- The child serves the session or has parked it.
abbrev pub IsHeldBy : ChildState → HostSessionState → Type 0
IsHeldBy c s = (c.host_session ≡ some s) ⊎ Among s c.parked

keep_current-before :
    (live : Option ℕ) (o : Option HostSessionState) (s : HostSessionState)
    → keep_current live o ≡ some s
    → o ≡ some s
unfolding keep_current
keep_current-before live none s h = h
keep_current-before live (some t) s h = elim (Bool-cases (is_stale live t)) [
  | inl y ↦ ground arith
  | inr n ↦ ground arith
]

filter-before :
    (live : Option ℕ) (s : HostSessionState) (ss : List HostSessionState)
    → Among s (filter (λ (t : HostSessionState). not (is_stale live t)) ss)
    → Among s ss
filter-before live s [] h = h
filter-before live s (t ∷ ss) h =
    let further = filter-before live s ss in
    elim (Bool-cases (is_stale live t)) [
      | inl y ↦ inr (further (rw y at h))
      | inr n ↦ elim (rw n at h) [ inl e ↦ inl e | inr m ↦ inr (further m) ]
    ]

pub evict_stale-before :
    (live : Option ℕ) (clears : Bool) (c : ChildState) (s : HostSessionState)
    → IsHeldBy (evict_stale_host_sessions live clears c) s
    → IsHeldBy c s
unfolding evict_stale_host_sessions
evict_stale-before live clears c s =
    if_rule (λ (d : ChildState). IsHeldBy d s → IsHeldBy c s)
      (stale_current live c.host_session || any_stale live c.parked) swept (λ h. h)
  where
    swept :
        (keep_current live c.host_session ≡ some s)
          ⊎ Among s (filter (λ (t : HostSessionState). not (is_stale live t)) c.parked)
        → IsHeldBy c s
    swept (inl h) = inl (keep_current-before live c.host_session s h)
    swept (inr h) = inr (filter-before live s c.parked h)
