-- ===== src/HostPool/Acquire/Taken.antt =====
-- Which entry `take_matching` of crates/lean-rs-host/src/host/pool.rs takes.
use lean_rs.Common.{◌≡◌, refl, ap, Bool, true, false, Option, none, some, List, [], ◌∷◌, ◌++◌, All}
use lean_rs.Common.Equality.{◌=?◌, beq_sound}
use lean_rs.HostPool.State.{
  SessionPoolKey, pool_key_eq, PooledEntry, take_first, take_later, take_matching,
}

-- The last entry with the key is taken out of the list, and the others keep their order.
pub data Taken (k : SessionPoolKey) (es : List PooledEntry)
    : Option (PooledEntry × List PooledEntry) → Type 0 where
  nothing : All (λ (e : PooledEntry). (e.key =? k) ≡ false) es → Taken k es none
  taken :
      (before after : List PooledEntry) (e : PooledEntry)
      → es ≡ before ++ e ∷ after
      → e.key ≡ k
      → All (λ (x : PooledEntry). (x.key =? k) ≡ false) after
      → Taken k es (some (e, before ++ after))

take_first-Taken :
    (k : SessionPoolKey) (e : PooledEntry) (es : List PooledEntry) (b : Bool)
    → (e.key =? k) ≡ b
    → All (λ (x : PooledEntry). (x.key =? k) ≡ false) es
    → Taken k (e ∷ es) (take_first b e es)
unfolding take_first
take_first-Taken k e es true h none_after = taken [] es e refl (beq_sound e.key k h) none_after
take_first-Taken k e es false h none_after = nothing (h, none_after)

take_later-Taken :
    (k : SessionPoolKey) (e : PooledEntry) (es : List PooledEntry)
    (o : Option (PooledEntry × List PooledEntry))
    → Taken k es o
    → Taken k (e ∷ es) (take_later k e es o)
unfolding take_later
take_later-Taken k e es _ (nothing h) = take_first-Taken k e es (e.key =? k) refl h
take_later-Taken k e es _ (taken before after x s q h) =
    taken (e ∷ before) after x (ap (◌∷◌ e) s) q h

pub take_matching-Taken :
    (k : SessionPoolKey) (es : List PooledEntry) → Taken k es (take_matching k es)
unfolding take_matching
take_matching-Taken k [] = nothing tt
take_matching-Taken k (e ∷ es) = take_later-Taken k e es _ (take_matching-Taken k es)
