-- ===== src/WorkerChild/Sessions/Mirror.antt =====
-- The parent's list of remembered sessions and the child's pool: `note_open_session_key` of
-- crates/lean-rs-worker-parent/src/supervisor.rs against `open_or_reuse_host_session` of
-- crates/lean-rs-worker-child/src/child.rs.
use lean_rs.Common.{
  ℕ, ◌+◌, ◌-◌, ◌≤◌, ◌≡◌, refl, ◌∙◌, ap, subst, sym, inl, inr, true, false, Option, none, some, List,
  [], ◌∷◌, ◌++◌, length, length-append, arith, Bool-cases, All, if_rule, String,
}
use lean_rs.Common.Equality.{◌=?◌, beq_sound}
use lean_rs.Protocol.Message.{Response, host_session_opened, host_session_reused}
use lean_rs.WorkerChild.Key.{HostSessionKey, host_key_eq}
use lean_rs.Supervisor.Reuse.{holds, remove_key, drop_front, touch_key}
use lean_rs.Supervisor.Reuse.Recent.{IsDistinct, drop_front-snoc}
use lean_rs.WorkerChild.Sessions.{
  HostSessionState, ChildState, OpenEnv, Imported, session, import_fails, take_parked, park,
  evict_rounds, make_room, find_anchor, import_session, new_anchor, open_fresh, open_parked,
  open_current, open_or_reuse_host_session, held_keys,
}
use lean_rs.WorkerChild.Sessions.Held.{
  keys_of, held, AtEpoch, IsCurrent, evict_stale-current, All-park, keys_of-park, keys-evict_rounds,
  length-keys_of, holds-append, not_held-snoc, other-snoc, IsDistinct-last, Takes,
  take_parked-Takes,
}

-- After an answer the child holds what the parent's list becomes, and the parent's list says whether
-- the child imports.
abbrev pub Mirrors : ℕ → HostSessionKey → List HostSessionKey → Response × ChildState → Type 0
Mirrors capacity k keys (host_session_opened stats, c) =
    (held c ≡ touch_key capacity k keys) × (holds k keys ≡ false)
Mirrors capacity k keys (host_session_reused stats, c) =
    (held c ≡ touch_key capacity k keys) × (holds k keys ≡ true)
Mirrors capacity k keys (r, c) = Unit {0}

-- The import stands at the live epoch.
abbrev pub ImportedAt : ℕ → Imported → Type 0
ImportedAt live (session id epoch stats) = epoch ≡ live
ImportedAt live (import_fails code message) = Unit {0}

-- The epoch stands still through the open.
pub record IsSteady (live : ℕ) (env : OpenEnv) : Type 0 where
  pub before : env.live_before ≡ some live
  pub after : env.live_after ≡ some live
  pub imported : ImportedAt live env.imported

module _ (capacity : ℕ) (k : HostSessionKey) (env : OpenEnv) (live : ℕ) (pos : 1 ≤ capacity)
    (steady : IsSteady live env) where
  -- What `make_room` leaves when the key is new.
  touch-new :
      (keys : List HostSessionKey)
      → holds k keys ≡ false
      → drop_front (length keys + 1 - capacity) keys ++ k ∷ [] ≡ touch_key capacity k keys
  unfolding touch_key
  touch-new keys new =
      rw (new, length-append keys (k ∷ []))
        (sym (drop_front-snoc (length keys + 1 - capacity) keys k (omega arith)))

  import_session-Mirrors :
      (c : ChildState) (i : Imported) (keys : List HostSessionKey)
      → ImportedAt live i
      → All (AtEpoch live) c.parked
      → keys_of c.parked ++ k ∷ [] ≡ touch_key capacity k keys
      → holds k keys ≡ false
      → Mirrors capacity k keys (import_session k env i c)
  unfolding import_session
  import_session-Mirrors c (import_fails code message) keys at a e new = tt
  import_session-Mirrors c (session id epoch stats) keys at a e new =
      let opened : ChildState = record c {
        host_session =
            some (record {
              key = k;
              env = id;
              extension_registry_epoch = epoch;
              import_stats = stats;
            });
      } in
      rw (evict_stale-current live env.live_after env.clears opened steady.after (at, a)) (e, new)

  new_anchor-Mirrors :
      (c : ChildState) (e : Option (String × String)) (keys : List HostSessionKey)
      → All (AtEpoch live) c.parked
      → keys_of c.parked ++ k ∷ [] ≡ touch_key capacity k keys
      → holds k keys ≡ false
      → Mirrors capacity k keys (new_anchor k env e c)
  unfolding new_anchor
  new_anchor-Mirrors c (some (code, message)) keys a e new = tt
  new_anchor-Mirrors c none keys a e new =
      import_session-Mirrors _ env.imported keys steady.imported a e new

  open_fresh-Mirrors :
      (c : ChildState)
      → IsCurrent live c
      → holds k (held c) ≡ false
      → Mirrors capacity k (held c) (open_fresh capacity k env c)
  unfolding open_fresh make_room
  open_fresh-Mirrors c (now, all) new =
      if_rule (Mirrors capacity k (held c)) (find_anchor k roomy.anchors)
        (import_session-Mirrors roomy env.imported (held c) steady.imported room.1 touched new)
        (new_anchor-Mirrors roomy env.anchor_error (held c) room.1 touched new)
    where
      parked : List HostSessionState
      parked = park c.host_session c.parked

      full : ChildState
      full = record c { host_session = none; parked = parked }

      n : ℕ
      n = length parked + 1 - capacity

      roomy : ChildState
      roomy = evict_rounds n env.clears full

      room :
          (keys_of roomy.parked ≡ drop_front n (keys_of parked))
          × All (AtEpoch live) roomy.parked
          × (roomy.host_session ≡ none)
      room =
          keys-evict_rounds n live env.clears full (All-park live c.host_session c.parked now all)

      count : length parked ≡ length (held c)
      count = sym (length-keys_of parked) ∙ ap length (keys_of-park c.host_session c.parked)

      touched : keys_of roomy.parked ++ k ∷ [] ≡ touch_key capacity k (held c)
      touched =
          ap (λ (xs : List HostSessionKey). xs ++ k ∷ [])
            (room.0
              ∙ ap (λ (m : ℕ). drop_front (m + 1 - capacity) (keys_of parked)) count
              ∙ ap (drop_front (length (held c) + 1 - capacity))
                  (keys_of-park c.host_session c.parked))
          ∙ touch-new (held c) new

  -- The key is not the current one.
  abbrev Elsewhere : Option HostSessionState → Type 0
  Elsewhere none = Unit {0}
  Elsewhere (some s) = (s.key =? k) ≡ false

  parked-held :
      (o : Option HostSessionState) (ss rest : List HostSessionState)
      → keys_of rest ≡ remove_key k (keys_of ss)
      → holds k (keys_of ss) ≡ true
      → (keys_of (park o rest) ≡ remove_key k (held_keys o ss)) × (holds k (held_keys o ss) ≡ true)
  unfolding park
  parked-held none ss rest e h = (e, h)
  parked-held (some s) ss rest e h = (
    keys_of-park (some s) rest
        ∙ ap (λ (xs : List HostSessionKey). xs ++ s.key ∷ []) e
        ∙ sym (holds-append k (keys_of ss) (s.key ∷ []) h).1,
    (holds-append k (keys_of ss) (s.key ∷ []) h).0,
  )

  new-held :
      (o : Option HostSessionState) (ss : List HostSessionState)
      → Elsewhere o
      → holds k (keys_of ss) ≡ false
      → holds k (held_keys o ss) ≡ false
  new-held none ss e h = h
  new-held (some s) ss e h = other-snoc k s.key (keys_of ss) e h

  touch-old :
      (keys : List HostSessionKey)
      → holds k keys ≡ true
      → remove_key k keys ++ k ∷ [] ≡ touch_key capacity k keys
  unfolding touch_key
  touch-old keys old = rw old refl

  current-held :
      (keys xs : List HostSessionKey)
      → IsDistinct keys
      → keys ≡ xs ++ k ∷ []
      → (keys ≡ touch_key capacity k keys) × (holds k keys ≡ true)
  current-held keys xs d e =
      subst (λ (ys : List HostSessionKey). (ys ≡ touch_key capacity k ys) × (holds k ys ≡ true))
        (sym e)
        (
          sym (ap (λ (ys : List HostSessionKey). ys ++ k ∷ []) old.1)
              ∙ touch-old (xs ++ k ∷ []) old.0,
          old.0,
        )
    where
      old : (holds k (xs ++ k ∷ []) ≡ true) × (remove_key k (xs ++ k ∷ []) ≡ xs)
      old = not_held-snoc k xs (IsDistinct-last k xs (subst IsDistinct e d))

  open_parked-Mirrors :
      (c : ChildState) (o : Option (HostSessionState × List HostSessionState))
      → IsCurrent live c
      → Elsewhere c.host_session
      → Takes live k c.parked o
      → Mirrors capacity k (held c) (open_parked capacity k env c o)
  unfolding open_parked
  open_parked-Mirrors c none now other t =
      open_fresh-Mirrors c now (new-held c.host_session c.parked other t)
  open_parked-Mirrors c (some (s, rest)) now other (e, r, h) =
      let (q, old) = parked-held c.host_session c.parked rest r h in
      (
        ap (λ (xs : List HostSessionKey). xs ++ s.key ∷ []) q
            ∙ ap (λ (x : HostSessionKey). remove_key k (held c) ++ x ∷ []) e
            ∙ touch-old (held c) old,
        old,
      )

  open_current-Mirrors :
      (c : ChildState) (o : Option HostSessionState)
      → c.host_session ≡ o
      → IsCurrent live c
      → IsDistinct (held c)
      → Mirrors capacity k (held c) (open_current capacity k env c o)
  unfolding open_current
  open_current-Mirrors c none e now d =
      open_parked-Mirrors c (take_parked k c.parked) now (subst Elsewhere (sym e) tt)
        (take_parked-Takes live k c.parked)
  open_current-Mirrors c (some s) e now d = elim (Bool-cases (s.key =? k)) [
    | inl t ↦ rw t (
        current-held (held c) (keys_of c.parked) d (
          ap (λ (x : Option HostSessionState). held_keys x c.parked) e
          ∙ ap (λ (x : HostSessionKey). keys_of c.parked ++ x ∷ []) (beq_sound s.key k t)))
    | inr f ↦ rw f (
        open_parked-Mirrors c (take_parked k c.parked) now (subst Elsewhere (sym e) f)
          (take_parked-Takes live k c.parked))
  ]

  pub open_or_reuse-Mirrors :
      (c : ChildState)
      → IsCurrent live c
      → IsDistinct (held c)
      → Mirrors capacity k (held c) (open_or_reuse_host_session capacity k env c)
  unfolding open_or_reuse_host_session
  open_or_reuse-Mirrors c now d =
      rw (evict_stale-current live env.live_before env.clears c steady.before now)
        (open_current-Mirrors c c.host_session refl now d)
