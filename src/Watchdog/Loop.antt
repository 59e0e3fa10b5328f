-- ===== src/Watchdog/Loop.antt =====
-- src/obs_agent/spark_watchdog.py: one round of `run_forever`.
use recursive_harness_builde.Prelude.{
  ℕ, zero, suc, ◌+◌, ◌-◌, ◌*◌, ◌^◌, min, Option, Bool, true, false, ◌&&◌, String, List, [], ◌∷◌,
  ◌++◌, ltb, leb, length, if◌then◌else◌,
}
use recursive_harness_builde.Watchdog.Detector.{
  Detector, Health, Verdict, State, wedged, down, recycle, observe, reset,
}

abbrev pub backoff_base : ℕ
backoff_base = 600_000

abbrev pub backoff_max : ℕ
backoff_max = 3_600_000

-- `6 * 3600` seconds
abbrev pub recent_window : ℕ
recent_window = 21_600_000

-- One entry of `restarts`: when the restart was over, and how it went.
pub record Restart : Type 0 where
  pub t : ℕ
  pub ok : Bool

abbrev pub needs_restart : State → Bool
needs_restart wedged = true
needs_restart down = true
needs_restart recycle = true
needs_restart _ = false

-- `[r for r in restarts if now - r["t"] < 6 * 3600]`
unfoldable pub recent : ℕ → List Restart → List Restart
recent now [] = []
recent now (r ∷ rs) = if ltb now (r.t + recent_window) then r ∷ recent now rs else recent now rs

abbrev pub last_t : Restart → List Restart → ℕ
last_t r [] = r.t
last_t r (s ∷ rs) = last_t s rs

-- `gap` for `n` recent restarts
unfoldable pub gap : ℕ → ℕ
gap zero = 0
gap (suc n) = min backoff_max (backoff_base * 2 ^ n)

-- `recent and now - recent[-1]["t"] < gap`
unfoldable pub must_wait : ℕ → List Restart → Bool
unfolding gap
must_wait now [] = false
must_wait now (r ∷ rs) = ltb now (last_t r rs + gap (length (r ∷ rs)))

-- What a round publishes, or asks for.
pub data Decision : Type 0 where
  publish : Verdict → Decision
  hold_off : ℕ → Decision
  restart : Decision

unfoldable pub decide_restart : ℕ → Bool → List Restart → Verdict → Decision
unfolding recent must_wait
decide_restart now act restarts v =
    if needs_restart v.state && act
    then elim (recent now restarts) [
      | [] ↦ restart
      | r ∷ rs ↦
          if must_wait now (r ∷ rs)
          then hold_off (last_t r rs + gap (length (r ∷ rs)) - now)
          else restart
    ]
    else publish v

-- `recent[-20:]`
unfoldable pub last_20 : List Restart → List Restart
last_20 [] = []
last_20 (r ∷ rs) = if leb (length (r ∷ rs)) 20 then r ∷ rs else last_20 rs

pub record Watch : Type 0 where
  pub detector : Detector
  pub restarts : List Restart
  pub decisions : List Decision  -- newest first

-- The end of a round: a restart takes until `finished`, is noted, and resets the detector.
unfoldable pub after_decision : ℕ → ℕ → Bool → Decision → Detector → Watch → Watch
unfolding last_20
after_decision now finished ok restart d w = record {
  detector = reset finished d;
  restarts = last_20 (recent now w.restarts ++ record { t = finished; ok = ok } ∷ []);
  decisions = restart ∷ w.decisions;
}
after_decision now finished ok decision d w = record w {
  detector = d;
  decisions = decision ∷ w.decisions;
}

-- A round of `run_forever` after the ranks have been observed; `ok` and `finished` are the result
-- and the end of the restart, if there is one.
unfoldable pub round : ℕ → Option Health → Option String → Bool → ℕ → Bool → Watch → Watch
unfolding decide_restart after_decision
round now health maintenance act finished ok w =
    let (d, v) = observe now health maintenance w.detector in
    after_decision now finished ok (decide_restart now act w.restarts v) d w
