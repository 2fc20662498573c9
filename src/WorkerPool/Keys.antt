-- ===== src/WorkerPool/Keys.antt =====
-- The keys of the pool's entries, and where `position` of crates/lean-rs-worker-parent/src/pool.rs
-- finds one.
use lean_rs.Common.{
  ℕ, zero, suc, ◌≡◌, refl, ap, inl, inr, false, Option, none, some, List, [], ◌∷◌, ◌++◌, length,
  get_elem?, Bool-cases,
}
use lean_rs.Common.Equality.{◌=?◌, beq_sound}
use lean_rs.Common.Unique.{contains}
use lean_rs.WorkerPool.Config.{LeanWorkerSessionKey, session_key_eq}
use lean_rs.WorkerPool.State.{position, PoolRssTotal, add_sample, refresh_from}
use lean_rs.WorkerPool.Entry.{PoolEntry, sample_rss}
use lean_rs.WorkerPool.Entry.Keys.{sample_rss-key}
use lean_rs.WorkerPool.Lease.{set_entry}

abbrev pub keys : List PoolEntry → List LeanWorkerSessionKey
keys [] = []
keys (e ∷ es) = e.key ∷ keys es

pub length-keys : (es : List PoolEntry) → length (keys es) ≡ length es
length-keys [] = refl
length-keys (e ∷ es) = ap suc (length-keys es)

pub keys-snoc : (es : List PoolEntry) (e : PoolEntry) → keys (es ++ e ∷ []) ≡ keys es ++ e.key ∷ []
keys-snoc [] e = refl
keys-snoc (x ∷ xs) e = ap (◌∷◌ x.key) (keys-snoc xs e)

pub keys-refresh_from :
    (samples : ℕ → Option ℕ) (i : ℕ) (es : List PoolEntry) (t : PoolRssTotal)
    → keys (refresh_from samples i es t).1 ≡ keys es
unfolding refresh_from
keys-refresh_from samples i [] t = refl
keys-refresh_from samples i (e ∷ es) t = cc (
  sample_rss-key (samples i) e,
  keys-refresh_from samples (suc i) es (add_sample (sample_rss (samples i) e).0 t),
)

pub keys-set_entry :
    (es : List PoolEntry) (i : ℕ) (x e : PoolEntry)
    → get_elem? es i ≡ some x
    → e.key ≡ x.key
    → keys (set_entry es i e) ≡ keys es
unfolding set_entry
keys-set_entry [] i x e h k = refl
keys-set_entry (y ∷ ys) zero x e h k = cc (h, k)
keys-set_entry (y ∷ ys) (suc i) x e h k = ap (◌∷◌ y.key) (keys-set_entry ys i x e h k)

-- Found: the entry there has the key. Not found: no entry has it.
pub data Located (k : LeanWorkerSessionKey) (es : List PoolEntry) (o : Option ℕ) : Type 0 where
  found :
      (i : ℕ) (e : PoolEntry) → o ≡ some i → get_elem? es i ≡ some e → e.key ≡ k → Located k es o
  missing : o ≡ none → contains k (keys es) ≡ false → Located k es o

pub position-Located :
    (k : LeanWorkerSessionKey) (es : List PoolEntry) → Located k es (position k es)
unfolding position
position-Located k [] = missing refl refl
position-Located k (e ∷ es) = elim (Bool-cases (e.key =? k)) [
  | inl t ↦ found 0 e (rw t refl) refl (beq_sound e.key k t)
  | inr f ↦ elim (position-Located k es) [
    | found i x o g q ↦ found (suc i) x (rw (f, o) refl) g q
    | missing o c ↦ missing (rw (f, o) refl) (rw f c)
  ]
]
