-- ===== src/CacheGate/Rerun.antt =====
-- src/obs_agent/cache_gate.py: `rerun_verdict`, and the rule that its comment states.
use recursive_harness_builde.Prelude.{
  ℕ, zero, suc, String, Option, none, some, Bool, false, List, [], ◌∷◌, leb, ltb, if◌then◌else◌,
}
use recursive_harness_builde.CacheGate.Reports.{
  Report, Status, pass, provider_error, skipped, other, has_no_verdict, known_intermittent,
  status_of, failure_of,
}

-- What one rerun says of the scenario.
pub data Outcome : Type 0 where
  silent passed : Outcome
  failed : Bool → Outcome  -- whether the failure is a documented shape

abbrev pub outcome_of : String → String → Report → Option Status → Outcome
outcome_of provider scenario r none = silent
outcome_of provider scenario r (some provider_error) = silent
outcome_of provider scenario r (some skipped) = silent
outcome_of provider scenario r (some pass) = passed
outcome_of provider scenario r (some (other s)) =
    failed (known_intermittent provider scenario (failure_of r provider scenario (other s)))

abbrev pub outcome : String → String → Report → Outcome
outcome provider scenario r = outcome_of provider scenario r (status_of r provider scenario)

-- `RERUN_PASSES_AFTER_FAIL if fails else 1`
abbrev pub needed : ℕ → ℕ
needed zero = 1
needed (suc n) = 2

-- The loop of `rerun_verdict`, and its end; `fails` counts the full run's failure too, `rerun_fails`
-- those of the reruns, of which `RERUN_FAILS_ALLOWED` = 1 is allowed.
unfoldable pub rerun_loop : String → String → ℕ → ℕ → ℕ → List Report → Bool
rerun_loop provider scenario fails rerun_fails passes [] = leb (needed fails) passes
rerun_loop provider scenario fails rerun_fails passes (r ∷ rs) =
    elim (outcome provider scenario r) [
      | silent ↦ rerun_loop provider scenario fails rerun_fails passes rs
      | passed ↦ rerun_loop provider scenario fails rerun_fails (suc passes) rs
      | failed known ↦
          if ltb 0 passes
          then false
          else if known
          then if ltb 1 (suc rerun_fails)
            then false
            else rerun_loop provider scenario (suc fails) (suc rerun_fails) passes rs
          else false
    ]

unfoldable pub rerun_verdict : String → String → Status → List Report → Bool
unfolding rerun_loop
rerun_verdict provider scenario original reruns =
    rerun_loop provider scenario (if has_no_verdict original then 0 else 1) 0 0 reruns
