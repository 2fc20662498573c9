-- ===== src/WorkerPool/Lease/Sound.antt =====
-- The invariant of the pool of crates/lean-rs-worker-parent/src/pool.rs over its acquisitions and the
-- ends of its leases.
use lean_rs.Common.{
  ℕ, zero, suc, ◌-◌, ◌≤◌, ◌<◌, ◌≡◌, ◌≢◌, refl, ap, ◌∙◌, inl, inr, false, Option, some, List, [],
  ◌∷◌, ◌++◌, length, length-append, get_elem?, sat_add, u64_max, if_rule, if◌then◌else◌, arith,
  Bool-cases,
}
use lean_rs.Common.Unique.{contains, IsUnique, IsUnique-snoc}
use lean_rs.Supervisor.Types.{Result, ok, err}
use lean_rs.WorkerPool.Config.{LeanWorkerSessionKey, session_key_eq, LeanWorkerPoolConfig}
use lean_rs.WorkerPool.Entry.{
  LeanWorkerCapability, LeanWorkerCapabilityBuilder, PoolEntry, sample_rss,
}
use lean_rs.WorkerPool.Entry.Keys.{sample_rss-key}
use lean_rs.WorkerPool.State.{LeanWorkerPool, PoolAdmissionDecision}
use lean_rs.WorkerPool.Pool.Admission.{Admission, warm, cold, full, over_budget}
use lean_rs.WorkerPool.Pool.Admitted.{admit_lease-Admission}
use lean_rs.WorkerPool.Keys.{keys, length-keys, keys-snoc, keys-set_entry}
use lean_rs.WorkerPool.Lease.{
  LeanWorkerSessionLease, grant_lease, AcquireEnv, ensure_entry_running, assign_entry, set_entry,
  grant, acquire_warm, fresh_entry, acquire_cold, acquire_admitted, acquire_lease, release_once,
  drop_lease,
}
use lean_rs.WorkerPool.Lease.Keys.{ensure_entry_running-key, assign_entry-key}

-- At most `max_workers` workers, no two of them for the same key.
pub record IsSound (p : LeanWorkerPool) : Type 0 where
  pub bounded : length (keys p.entries) ≤ p.config.max_workers
  pub unique : IsUnique (keys p.entries)

-- A lease stands for an entry of the pool, the one with its key.
pub record IsHeld (p : LeanWorkerPool) (held : ℕ × LeanWorkerSessionLease) : Type 0 where
  pub place : PoolEntry
  pub at : get_elem? p.entries held.0 ≡ some place
  pub key : held.1.entry.key ≡ place.key

-- The pool after an acquisition, and what the lease, if there is one, is for.
abbrev pub Acquires :
    LeanWorkerSessionKey → Result (ℕ × LeanWorkerSessionLease) × LeanWorkerPool → Type 0
Acquires k (ok held, p) = IsSound p × IsHeld p held × (held.1.entry.key ≡ k)
Acquires k (err x, p) = IsSound p × Unit {0}

Sound-keys :
    (p q : LeanWorkerPool)
    → IsSound p
    → q.config ≡ p.config
    → keys q.entries ≡ keys p.entries
    → IsSound q
Sound-keys p q s c k = record { bounded = rw (c, k) s.bounded; unique = rw k s.unique }

get-set_entry :
    (es : List PoolEntry) (i : ℕ) (x e : PoolEntry)
    → get_elem? es i ≡ some x
    → get_elem? (set_entry es i e) i ≡ some e
unfolding set_entry
get-set_entry [] i x e h = cc
get-set_entry (y ∷ ys) zero x e h = refl
get-set_entry (y ∷ ys) (suc i) x e h = get-set_entry ys i x e h

get-snoc : (es : List PoolEntry) (e : PoolEntry) → get_elem? (es ++ e ∷ []) (length es) ≡ some e
get-snoc [] e = refl
get-snoc (x ∷ xs) e = get-snoc xs e

grant-Acquires :
    (k : LeanWorkerSessionKey) (i : ℕ) (x : PoolEntry) (p : LeanWorkerPool)
    (r : Result (Unit {0}) × PoolEntry)
    → IsSound p
    → get_elem? p.entries i ≡ some x
    → x.key ≡ k
    → r.1.key ≡ x.key
    → Acquires k (grant i p r)
unfolding grant grant_lease
grant-Acquires k i x p (err y, e) s g q h =
    (Sound-keys p _ s refl (keys-set_entry p.entries i x e g h), tt)
grant-Acquires k i x p (ok _, e) s g q h = (
  Sound-keys p _ s refl (keys-set_entry p.entries i x (grant_lease p.config e).entry g h),
  record {
    place = (grant_lease p.config e).entry;
    at = get-set_entry p.entries i x (grant_lease p.config e).entry g;
    key = refl;
  },
  h ∙ q,
)

acquire_cold-Acquires :
    (builder : LeanWorkerCapabilityBuilder) (env : AcquireEnv)
    (opened : Result LeanWorkerCapability) (p : LeanWorkerPool)
    → IsSound p
    → contains builder.session_key (keys p.entries) ≡ false
    → length (keys p.entries) < p.config.max_workers
    → Acquires builder.session_key (acquire_cold builder env opened p)
unfolding acquire_cold fresh_entry grant_lease
acquire_cold-Acquires builder env (err x) p s c h =
    (record { bounded = s.bounded; unique = s.unique }, tt)
acquire_cold-Acquires builder env (ok v) p s c h = (
  record {
    bounded = rw keyed (omega (arith, length-append (keys p.entries) (builder.session_key ∷ [])));
    unique = rw keyed (IsUnique-snoc builder.session_key (keys p.entries) s.unique c);
  },
  record { place = lease.entry; at = get-snoc p.entries lease.entry; key = refl },
  sample_rss-key env.sample (fresh_entry builder env v),
)
  where
    lease : LeanWorkerSessionLease
    lease = grant_lease p.config (sample_rss env.sample (fresh_entry builder env v)).1

    keyed : keys (p.entries ++ lease.entry ∷ []) ≡ keys p.entries ++ builder.session_key ∷ []
    keyed =
        keys-snoc p.entries lease.entry
        ∙ ap (λ k. keys p.entries ++ k ∷ []) (sample_rss-key env.sample (fresh_entry builder env v))

acquire_warm-Acquires :
    (k : LeanWorkerSessionKey) (env : AcquireEnv) (i : ℕ) (o : Option PoolEntry) (e : PoolEntry)
    (p : LeanWorkerPool)
    → o ≡ some e
    → get_elem? p.entries i ≡ some e
    → e.key ≡ k
    → IsSound p
    → Acquires k (acquire_warm env i o p)
unfolding acquire_warm
acquire_warm-Acquires k env i o e p w g q s = rw w (
    grant-Acquires k i e p (assign_entry p.config env (ensure_entry_running env e)) s g q
      (assign_entry-key p.config env (ensure_entry_running env e) ∙ ensure_entry_running-key env e))

acquire_admitted-Acquires :
    (builder : LeanWorkerCapabilityBuilder) (env : AcquireEnv) (p : LeanWorkerPool)
    (d : Result PoolAdmissionDecision) (q : LeanWorkerPool)
    → IsSound p
    → Admission builder.session_key env.samples p (d, q)
    → Acquires builder.session_key (acquire_admitted builder env (d, q))
unfolding acquire_admitted acquire_warm
acquire_admitted-Acquires builder env p d q s (warm i e w g k es c hit) = rw w (
    acquire_warm-Acquires builder.session_key env i (get_elem? q.entries i) e q
      (ap (λ (l : List PoolEntry). get_elem? l i) es ∙ g)
      (ap (λ (l : List PoolEntry). get_elem? l i) es ∙ g) k (Sound-keys p q s c (ap keys es)))
acquire_admitted-Acquires builder env p d q s (cold w c h room same n) = rw w (
    acquire_cold-Acquires builder env env.opened q (Sound-keys p q s same.config same.entries)
      (rw same.entries c) (rw (same.config, same.entries, length-keys p.entries) h))
acquire_admitted-Acquires builder env p d q s (full x w f c h same n) =
    rw w (Sound-keys p q s same.config same.entries, tt)
acquire_admitted-Acquires builder env p d q s (over_budget x w f c h same n) =
    rw w (Sound-keys p q s same.config same.entries, tt)

-- Whatever opens, dies or is cycled: an acquisition leaves at most `max_workers` workers in the pool,
-- no two of them for one key, and a lease that it returns is for the key that was asked for and
-- stands at an entry of the pool. The pool has at most `max_workers` workers with distinct keys
-- before.
pub acquire_lease-Acquires :
    (builder : LeanWorkerCapabilityBuilder) (env : AcquireEnv) (p : LeanWorkerPool)
    → IsSound p
    → Acquires builder.session_key (acquire_lease builder env p)
unfolding acquire_lease
acquire_lease-Acquires builder env p s =
    acquire_admitted-Acquires builder env p _ _ s
      (admit_lease-Admission builder.session_key env.samples p)

release_once-key : (l : LeanWorkerSessionLease) → (release_once l).entry.key ≡ l.entry.key
unfolding release_once
release_once-key l =
    if_rule (λ (x : LeanWorkerSessionLease). x.entry.key ≡ l.entry.key) l.released refl refl

-- The leases that an entry has without this one.
abbrev pub leases_without : LeanWorkerSessionLease → ℕ
leases_without l = if l.released then l.entry.active_leases else l.entry.active_leases - 1

-- The pool that a dropped lease leaves: its entry stands at its place, as the lease had it but for
-- the count, and nothing else is touched.
pub record Drops (held : ℕ × LeanWorkerSessionLease) (p q : LeanWorkerPool) : Type 0 where
  pub sound : IsSound q
  pub entry :
      get_elem? q.entries held.0
      ≡ some (record held.1.entry { active_leases = leases_without held.1 })
  pub others : (j : ℕ) → j ≢ held.0 → get_elem? q.entries j ≡ get_elem? p.entries j
  pub pool : record q { entries = p.entries } ≡ p

get-set_entry-other :
    (es : List PoolEntry) (i j : ℕ) (e : PoolEntry)
    → j ≢ i
    → get_elem? (set_entry es i e) j ≡ get_elem? es j
unfolding set_entry
get-set_entry-other [] i j e h = refl
get-set_entry-other (x ∷ xs) zero zero e h = absurd (h refl)
get-set_entry-other (x ∷ xs) zero (suc j) e h = refl
get-set_entry-other (x ∷ xs) (suc i) zero e h = refl
get-set_entry-other (x ∷ xs) (suc i) (suc j) e h = get-set_entry-other xs i j e (λ q. h (ap suc q))

release_once-entry :
    (l : LeanWorkerSessionLease)
    → (release_once l).entry ≡ record l.entry { active_leases = leases_without l }
unfolding release_once
release_once-entry l = elim (Bool-cases l.released) [ inl t ↦ rw t refl | inr t ↦ rw t refl ]

-- Dropping a lease gives the entry that it worked on back to its place, with one lease less unless
-- the lease was released already; no other entry and nothing else of the pool changes, and the pool
-- keeps at most `max_workers` workers with distinct keys. The pool is so before, and the lease
-- stands at an entry of it.
pub drop_lease-IsSound :
    (held : ℕ × LeanWorkerSessionLease) (p : LeanWorkerPool)
    → IsSound p
    → IsHeld p held
    → Drops held p (drop_lease held p)
unfolding drop_lease
drop_lease-IsSound (i, l) p s h = record {
  sound =
      Sound-keys p _ s refl
        (keys-set_entry p.entries i h.place _ h.at (release_once-key l ∙ h.key));
  entry =
      get-set_entry p.entries i h.place (release_once l).entry h.at
      ∙ ap some (release_once-entry l);
  others = λ j d. get-set_entry-other p.entries i j (release_once l).entry d;
  pool = refl;
}

-- A lease counts once. A lease that still holds its share of the count, as `grant_lease` took it for
-- an entry with some leases, gives the entry back with as many as it had then, and releasing it a
-- second time changes nothing; and that whatever else became of the lease, valid or invalidated. The
-- count had room.
pub release_once-grant_lease :
    (config : LeanWorkerPoolConfig) (e : PoolEntry) (l : LeanWorkerSessionLease)
    → e.active_leases < u64_max
    → l.released ≡ (grant_lease config e).released
    → l.entry.active_leases ≡ (grant_lease config e).entry.active_leases
    → (release_once (release_once l) ≡ release_once l)
      × ((release_once l).entry.active_leases ≡ e.active_leases)
unfolding release_once grant_lease sat_add
release_once-grant_lease config e l h r n = rw r (refl, omega arith)
