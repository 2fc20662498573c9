-- ===== src/Supervisor/Restart/Window.antt =====
-- The restart intensity limit of crates/lean-rs-worker-parent/src/supervisor.rs (`admit_restart`)
-- against its specification: a count of the restarts that a moving window still covers.
use lean_rs.Common.{
  ap, Bool, true, false, sym, ◌∙◌, ℕ, ◌+◌, ◌-◌, ◌≤◌, ◌<◌, ◌≡◌, refl, List, [], ◌∷◌, ◌++◌, length,
  length-append, arith, leb, ltb, if◌then◌else◌, All,
}
use lean_rs.Supervisor.Types.{Result, ok, err, restart_limit_exceeded}
use lean_rs.Supervisor.Policy.{RestartIntensityLimit}
use lean_rs.Supervisor.Worker.{LeanWorker}
use lean_rs.Supervisor.Restart.{
  enter_restart, refuse_restart, drop_expired, admit_within, admit_restart,
}

-- How many of the times lie less than `window` before `t`.
abbrev pub count_recent : ℕ → ℕ → List ℕ → ℕ
count_recent window t [] = 0
count_recent window t (a ∷ rest) =
    (if ltb (t - a) window then 1 else 0) + count_recent window t rest

abbrev pub intensity : LeanWorker → RestartIntensityLimit
intensity w = w.config.restart_policy.restart_intensity

count_recent-le-length : (window t : ℕ) (q : List ℕ) → count_recent window t q ≤ length q
count_recent-le-length window t [] = omega arith
count_recent-le-length window t (a ∷ rest) = ground (arith, count_recent-le-length window t rest)

count_recent-append :
    (window t : ℕ) (q r : List ℕ)
    → count_recent window t (q ++ r) ≡ count_recent window t q + count_recent window t r
count_recent-append window t [] r = omega arith
count_recent-append window t (a ∷ rest) r = omega (arith, count_recent-append window t rest r)

count_recent-drop_expired :
    (window now t : ℕ) (q : List ℕ)
    → now ≤ t
    → count_recent window t (drop_expired window now q) ≡ count_recent window t q
unfolding drop_expired
count_recent-drop_expired window now t [] h = refl
count_recent-drop_expired window now t (a ∷ rest) h =
    ground (arith, count_recent-drop_expired window now t rest h)

length-drop_expired-le :
    (window now : ℕ) (q : List ℕ) → length (drop_expired window now q) ≤ length q
unfolding drop_expired
length-drop_expired-le window now [] = omega arith
length-drop_expired-le window now (a ∷ rest) =
    ground (arith, length-drop_expired-le window now rest)

-- The oldest time first.
abbrev pub IsAscending : List ℕ → Type 0
IsAscending [] = Unit {0}
IsAscending (a ∷ rest) = All (λ b. a ≤ b) rest × IsAscending rest

count_recent-All :
    (window now a : ℕ) (q : List ℕ)
    → ltb (now - a) window ≡ true
    → All (λ b. a ≤ b) q
    → count_recent window now q ≡ length q
count_recent-All window now a [] h p = refl
count_recent-All window now a (b ∷ bs) h p = ground (arith, count_recent-All window now a bs h p.1)

length-drop_expired :
    (window now : ℕ) (q : List ℕ)
    → IsAscending q
    → length (drop_expired window now q) ≡ count_recent window now q
unfolding drop_expired
length-drop_expired window now [] s = refl
length-drop_expired window now (a ∷ rest) s =
    ground (arith, length-drop_expired window now rest s.1, count_recent-All window now a rest)

-- On a window in time order, a restart at `now` is refused exactly when the window already covers
-- the configured number of restarts, and the error names that number.
pub admit_restart-eq-count :
    (now : ℕ) (w : LeanWorker)
    → IsAscending w.restart_window
    → let limit = intensity w in
      let recent = count_recent limit.window now w.restart_window in
      (admit_restart now w).0 ≡ (
        if leb limit.max_restarts recent
        then err (restart_limit_exceeded recent limit.window)
        else ok tt)
unfolding admit_restart admit_within
admit_restart-eq-count now w s =
    ground (arith, length-drop_expired (intensity w).window now w.restart_window s)

-- What one attempt does to the window: `kept` is what is left of it at that time.
pub data Attempt (limit : RestartIntensityLimit) (now : ℕ) (kept : List ℕ) (w : LeanWorker)
    (r : Result (Unit {0}) × LeanWorker) : Type 0 where
  admitted :
      length kept < limit.max_restarts → r ≡ enter_restart now kept w → Attempt limit now kept w r
  refused :
      limit.max_restarts ≤ length kept
      → r ≡ refuse_restart limit kept w
      → Attempt limit now kept w r

Attempt-by :
    (limit : RestartIntensityLimit) (now : ℕ) (kept : List ℕ) (w : LeanWorker) (full : Bool)
    → leb limit.max_restarts (length kept) ≡ full
    → Attempt limit now kept w
        (if full then refuse_restart limit kept w else enter_restart now kept w)
Attempt-by limit now kept w true e = refused (ground arith) refl
Attempt-by limit now kept w false e = admitted (ground arith) refl

pub admit_restart-Attempt :
    (now : ℕ) (w : LeanWorker)
    → let limit = intensity w in
      Attempt limit now (drop_expired limit.window now w.restart_window) w (admit_restart now w)
unfolding admit_restart
admit_restart-Attempt now w = Attempt-by (intensity w) now _ w _ refl

note_admission : ℕ → Result (Unit {0}) × LeanWorker → (LeanWorker → List ℕ) → List ℕ
note_admission now (ok a, w) later = now ∷ later w
note_admission now (err e, w) later = later w

-- The times of a sequence of attempts at which the supervisor admits a restart.
pub admissions : List ℕ → LeanWorker → List ℕ
unfolding note_admission
admissions [] w = []
admissions (now ∷ later) w = note_admission now (admit_restart now w) (admissions later)

module _ (limit : RestartIntensityLimit) (t : ℕ) where
  -- The window and the admissions to come never cover more than the limit.
  abbrev Within : List ℕ → List ℕ → Type 0
  Within window later =
      count_recent limit.window t window + count_recent limit.window t later ≤ limit.max_restarts

  Attempt-Within :
      (now : ℕ) (w : LeanWorker) (r : Result (Unit {0}) × LeanWorker) (later : LeanWorker → List ℕ)
      → now ≤ t
      → length w.restart_window ≤ limit.max_restarts
      → Attempt limit now (drop_expired limit.window now w.restart_window) w r
      → ((v : LeanWorker)
          → intensity v ≡ intensity w
          → length v.restart_window ≤ limit.max_restarts
          → Within v.restart_window (later v))
      → Within w.restart_window (note_admission now r later)
  unfolding note_admission enter_restart refuse_restart
  Attempt-Within now w r later h len (admitted room e) ih = rw e (
      omega (
        arith,
        ih (enter_restart now kept w).1 refl (omega (arith, length-append kept (now ∷ []))),
        count_recent-append limit.window t kept (now ∷ []),
        count_recent-drop_expired limit.window now t w.restart_window h,
      ))
    where
      kept : List ℕ
      kept = drop_expired limit.window now w.restart_window
  Attempt-Within now w r later h len (refused full e) ih = rw e (
      omega (
        arith,
        ih (refuse_restart limit kept w).1 refl
            (omega (arith, length-drop_expired-le limit.window now w.restart_window)),
        count_recent-drop_expired limit.window now t w.restart_window h,
      ))
    where
      kept : List ℕ
      kept = drop_expired limit.window now w.restart_window

  admissions-Within :
      (nows : List ℕ) (w : LeanWorker)
      → limit ≡ intensity w
      → length w.restart_window ≤ limit.max_restarts
      → All (λ now. now ≤ t) nows
      → Within w.restart_window (admissions nows w)
  unfolding admissions
  admissions-Within [] w e h p =
      omega (arith, count_recent-le-length limit.window t w.restart_window)
  admissions-Within (now ∷ later) w e h p =
      Attempt-Within now w (admit_restart now w) (admissions later) p.0 h
        (rw e (admit_restart-Attempt now w))
        (λ v e' h'. admissions-Within later v (e ∙ sym e') h' p.1)

-- From an empty window, whatever the times of the attempts: at the last of them, and at any later
-- time, the restarts that were admitted less than one window before number at most `max_restarts`.
pub admissions-bounded :
    (nows : List ℕ) (w : LeanWorker) (t : ℕ)
    → w.restart_window ≡ []
    → All (λ now. now ≤ t) nows
    → count_recent (intensity w).window t (admissions nows w) ≤ (intensity w).max_restarts
admissions-bounded nows w t e p = omega (
  arith,
  admissions-Within (intensity w) t nows w refl (omega (arith, ap length e)) p,
  ap (count_recent (intensity w).window t) e,
)
