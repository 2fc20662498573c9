-- ===== src/WorkerChild/Sessions/Held.antt =====
-- The keys that a child holds: the steps of `open_or_reuse_host_session` of
-- crates/lean-rs-worker-child/src/child.rs on the list of its sessions.
use lean_rs.Common.{
  ℕ, zero, suc, ◌≡◌, refl, ◌∙◌, ap, subst, inl, inr, Bool, true, false, Option, none, some, List,
  [], ◌∷◌, ◌++◌, map, length, arith, Bool-cases, All,
}
use mathlib.Core.List.{map-append}
use lean_rs.Common.Equality.{◌=?◌, beq_sound, beq_refl}
use lean_rs.WorkerChild.Key.{HostSessionKey, host_key_eq}
use lean_rs.Supervisor.Reuse.{holds, remove_key, drop_front}
use lean_rs.Supervisor.Reuse.Recent.{IsDistinct}
use lean_rs.WorkerChild.Sessions.{
  HostSessionState, ChildState, is_stale, any_stale, stale_current, evict_stale_host_sessions,
  behind, take_parked, park, drop_first, evict_first, evict_rounds, held_keys,
}

abbrev pub keys_of : List HostSessionState → List HostSessionKey
keys_of = map (λ (s : HostSessionState). s.key)

abbrev pub held : ChildState → List HostSessionKey
held c = held_keys c.host_session c.parked

-- Every session stands at the live epoch.
abbrev pub AtEpoch : ℕ → HostSessionState → Type 0
AtEpoch live s = s.extension_registry_epoch ≡ live

abbrev pub CurrentAt : ℕ → Option HostSessionState → Type 0
CurrentAt live none = Unit {0}
CurrentAt live (some s) = AtEpoch live s

abbrev pub IsCurrent : ℕ → ChildState → Type 0
IsCurrent live c = CurrentAt live c.host_session × All (AtEpoch live) c.parked

pub is_stale-at :
    (live : ℕ) (s : HostSessionState) → AtEpoch live s → is_stale (some live) s ≡ false
unfolding is_stale
is_stale-at live s h = ground arith

pub any_stale-at :
    (live : ℕ) (ss : List HostSessionState)
    → All (AtEpoch live) ss
    → any_stale (some live) ss ≡ false
unfolding any_stale
any_stale-at live [] h = refl
any_stale-at live (s ∷ ss) h = rw (is_stale-at live s h.0) (any_stale-at live ss h.1)

pub stale_current-at :
    (live : ℕ) (o : Option HostSessionState)
    → CurrentAt live o
    → stale_current (some live) o ≡ false
unfolding stale_current
stale_current-at live none h = refl
stale_current-at live (some s) h = is_stale-at live s h

-- While the epoch stands still the sweep finds nothing.
pub evict_stale-current :
    (live : ℕ) (o : Option ℕ) (clears : Bool) (c : ChildState)
    → o ≡ some live
    → IsCurrent live c
    → evict_stale_host_sessions o clears c ≡ c
unfolding evict_stale_host_sessions
evict_stale-current live o clears c e h =
    rw (e, stale_current-at live c.host_session h.0, any_stale-at live c.parked h.1) refl

pub All-park :
    (live : ℕ) (o : Option HostSessionState) (ss : List HostSessionState)
    → CurrentAt live o
    → All (AtEpoch live) ss
    → All (AtEpoch live) (park o ss)
unfolding park
All-park live none ss h a = a
All-park live (some s) [] h a = (h, tt)
All-park live (some s) (x ∷ ss) h a = (a.0, All-park live (some s) ss h a.1)

pub All-drop_first :
    (live : ℕ) (ss : List HostSessionState)
    → All (AtEpoch live) ss
    → All (AtEpoch live) (drop_first ss)
unfolding drop_first
All-drop_first live [] a = tt
All-drop_first live (s ∷ ss) a = a.1

pub keys_of-park :
    (o : Option HostSessionState) (ss : List HostSessionState)
    → keys_of (park o ss) ≡ held_keys o ss
unfolding park
keys_of-park none ss = refl
keys_of-park (some s) ss = map-append (λ (x : HostSessionState). x.key) ss (s ∷ [])

pub drop_front-nil : (n : ℕ) → drop_front {A = HostSessionKey} n [] ≡ []
unfolding drop_front
drop_front-nil zero = refl
drop_front-nil (suc n) = refl

pub drop_front-drop_first :
    (n : ℕ) (ss : List HostSessionState)
    → drop_front n (keys_of (drop_first ss)) ≡ drop_front (suc n) (keys_of ss)
unfolding drop_first drop_front
drop_front-drop_first n [] = drop_front-nil n
drop_front-drop_first n (s ∷ ss) = refl

-- The rounds of the eviction are the parent's `drop_front`.
pub keys-evict_rounds :
    (n live : ℕ) (clears : Bool) (c : ChildState)
    → All (AtEpoch live) c.parked
    → (keys_of (evict_rounds n clears c).parked ≡ drop_front n (keys_of c.parked))
      × All (AtEpoch live) (evict_rounds n clears c).parked
      × ((evict_rounds n clears c).host_session ≡ c.host_session)
unfolding evict_rounds drop_front evict_first
keys-evict_rounds zero live clears c a = (refl, a, refl)
keys-evict_rounds (suc n) live clears c a =
    let (k, b, h) =
      keys-evict_rounds n live clears (evict_first clears c) (All-drop_first live c.parked a) in
    (k ∙ drop_front-drop_first n c.parked, b, h)

pub length-keys_of : (ss : List HostSessionState) → length (keys_of ss) ≡ length ss
length-keys_of [] = refl
length-keys_of (s ∷ ss) = ap suc (length-keys_of ss)

pub holds-append :
    (k : HostSessionKey) (xs ys : List HostSessionKey)
    → holds k xs ≡ true
    → (holds k (xs ++ ys) ≡ true) × (remove_key k (xs ++ ys) ≡ remove_key k xs ++ ys)
unfolding holds remove_key
holds-append k [] ys h = cc
holds-append k (x ∷ xs) ys h = ground (arith, holds-append k xs ys)

pub not_held-snoc :
    (k : HostSessionKey) (xs : List HostSessionKey)
    → holds k xs ≡ false
    → (holds k (xs ++ k ∷ []) ≡ true) × (remove_key k (xs ++ k ∷ []) ≡ xs)
unfolding holds remove_key
not_held-snoc k [] h = rw (beq_refl k) (refl, refl)
not_held-snoc k (x ∷ xs) h = ground (arith, not_held-snoc k xs)

pub other-snoc :
    (k o : HostSessionKey) (xs : List HostSessionKey)
    → (o =? k) ≡ false
    → holds k xs ≡ false
    → holds k (xs ++ o ∷ []) ≡ false
unfolding holds
other-snoc k o [] e h = ground arith
other-snoc k o (x ∷ xs) e h = ground (arith, other-snoc k o xs)

pub IsDistinct-last :
    (k : HostSessionKey) (xs : List HostSessionKey) → IsDistinct (xs ++ k ∷ []) → holds k xs ≡ false
unfolding holds
IsDistinct-last k [] d = refl
IsDistinct-last k (x ∷ xs) d = elim (Bool-cases (x =? k)) [
  | inl t ↦ cc (
    subst (λ (y : HostSessionKey). holds y (xs ++ k ∷ []) ≡ false) (beq_sound x k t) d.0,
    (not_held-snoc k xs (IsDistinct-last k xs d.1)).0,
  )
  | inr f ↦ rw f (IsDistinct-last k xs d.1)
]

-- A search of the parked sessions is a search of their keys.
abbrev pub Takes :
    ℕ
    → HostSessionKey
    → List HostSessionState
    → Option (HostSessionState × List HostSessionState)
    → Type 0
Takes live k ss none = holds k (keys_of ss) ≡ false
Takes live k ss (some (s, rest)) =
    (s.key ≡ k) × (keys_of rest ≡ remove_key k (keys_of ss)) × (holds k (keys_of ss) ≡ true)

pub behind-Takes :
    (live : ℕ) (k : HostSessionKey) (s : HostSessionState) (ss : List HostSessionState)
    (o : Option (HostSessionState × List HostSessionState))
    → (s.key =? k) ≡ false
    → Takes live k ss o
    → Takes live k (s ∷ ss) (behind s o)
unfolding behind holds remove_key
behind-Takes live k s ss none e h = rw e h
behind-Takes live k s ss (some (t, rest)) e h = rw e (h.0, ap (◌∷◌ s.key) h.1, h.2)

pub take_parked-Takes :
    (live : ℕ) (k : HostSessionKey) (ss : List HostSessionState)
    → Takes live k ss (take_parked k ss)
unfolding take_parked holds remove_key
take_parked-Takes live k [] = refl
take_parked-Takes live k (s ∷ ss) = elim (Bool-cases (s.key =? k)) [
  | inl t ↦ rw t (beq_sound s.key k t, rw t refl, rw t refl)
  | inr f ↦ rw f (behind-Takes live k s ss (take_parked k ss) f (take_parked-Takes live k ss))
]
