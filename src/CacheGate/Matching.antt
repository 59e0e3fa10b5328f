-- ===== src/CacheGate/Matching.antt =====
-- src/obs_agent/cache_gate.py: `_report_matches`, and what a report that matches has shown.
use recursive_harness_builde.Prelude.{
  ℕ, ◌≤◌, ◌≡◌, refl, ap, String, Option, none, some, Bool, true, false, ◌&&◌, ◌||◌, not, List, [],
  ◌∷◌, ◌++◌, map, All, ◌⊎◌, inl, inr, arith, is_empty, is_some, contains, lookup, ◌==◌, ==_iff,
  string_eq, if◌then◌else◌,
}
use recursive_harness_builde.CacheGate.Reports.{
  Report, Identity, Status, pass, same_code, text_eq, known_intermittent, failure_of,
  has_no_verdict,
}
use recursive_harness_builde.CacheGate.Rerun.{passed, failed, outcome, rerun_verdict}
use recursive_harness_builde.CacheGate.Rule.{replicate, heard, passes_wanted, rerun_rule}

-- `report.get("scenarios") in (None, "all")`
abbrev pub is_full_set : Option String → Bool
is_full_set none = true
is_full_set (some s) = s == "all"

abbrev pub is_pass : Status → Bool
is_pass pass = true
is_pass _ = false

-- One round of the inner loop of `_report_matches`: the scenario is not unresolved.
unfoldable pub resolved : Report → List Report → String → String → Status → Bool
resolved r reruns provider scenario s =
    if is_pass s
    then true
    else if not (known_intermittent provider scenario (failure_of r provider scenario s))
    then false
    else rerun_verdict provider scenario s reruns

unfoldable pub scenarios_resolved : Report → List Report → String → List (String × Status) → Bool
unfolding resolved
scenarios_resolved r reruns provider [] = true
scenarios_resolved r reruns provider ((scenario, s) ∷ rest) =
    resolved r reruns provider scenario s && scenarios_resolved r reruns provider rest

unfoldable pub all_resolved : Report → List Report → List (String × List (String × Status)) → Bool
unfolding scenarios_resolved
all_resolved r reruns [] = true
all_resolved r reruns ((provider, scenarios) ∷ rest) =
    scenarios_resolved r reruns provider scenarios && all_resolved r reruns rest

-- `_report_matches`
unfoldable pub report_matches : Report → Identity → List Report → Bool
unfolding all_resolved
report_matches r target reruns =
    if not (same_code r target)
    then false
    else if not (is_full_set r.scenarios)
    then false
    else if not (contains r.providers "anthropic") || not (contains r.providers "codex")
    then false
    else if is_pass r.result
    then true
    else if is_empty r.scenario_results
    then false
    else if not (is_some (lookup "anthropic" r.scenario_results))
        || not (is_some (lookup "codex" r.scenario_results))
    then false
    else all_resolved r reruns r.scenario_results

-- What the reruns of a scenario have to show, where the full run ended in `s`.
abbrev pub IsAcceptedOn : List Report → String → String → Status → Type 0
IsAcceptedOn reruns provider scenario s =
    (k m : ℕ) × (heard (map (outcome provider scenario) reruns)
      ≡ replicate k (failed true) ++ replicate m passed)
    × (k ≤ 1)
    × (passes_wanted (has_no_verdict s) k ≤ m)

abbrev pub IsResolved : Report → List Report → String → String × Status → Type 0
IsResolved r reruns provider (scenario, s) =
    (s ≡ pass)
    ⊎ ((known_intermittent provider scenario (failure_of r provider scenario s) ≡ true)
        × IsAcceptedOn reruns provider scenario s)

-- The report is of the target's code.
pub record IsOfCode (r : Report) (target : Identity) : Type 0 where
  pub head : r.code.head ≡ target.head
  pub dirty : r.code.dirty ≡ target.dirty
  pub cliproxy : r.code.cliproxy ≡ target.cliproxy
  pub proxy_source : (target.proxy_source ≡ none) ⊎ (r.code.proxy_source ≡ target.proxy_source)

text_eq_iff : (a b : Option String) → text_eq a b ≡ true → a ≡ b
text_eq_iff none none h = refl
text_eq_iff none (some b) h = cc
text_eq_iff (some a) none h = cc
text_eq_iff (some a) (some b) h = ap some ((==_iff a b).0 h)

pub same_code-IsOfCode :
    (r : Report) (target : Identity) → same_code r target ≡ true → IsOfCode r target
unfolding same_code
same_code-IsOfCode r target h = record {
  head = text_eq_iff r.code.head target.head (ground arith);
  dirty = text_eq_iff r.code.dirty target.dirty (ground arith);
  cliproxy = text_eq_iff r.code.cliproxy target.cliproxy (ground arith);
  proxy_source = loaded target.proxy_source refl;
}
  where
    loaded :
        (p : Option String)
        → target.proxy_source ≡ p
        → (target.proxy_source ≡ none) ⊎ (r.code.proxy_source ≡ target.proxy_source)
    loaded none e = inl e
    loaded (some p) e = inr (text_eq_iff r.code.proxy_source target.proxy_source (ground arith))

module _ (r : Report) (reruns : List Report) (provider : String) where
  resolved-IsResolved :
      (scenario : String) (s : Status)
      → resolved r reruns provider scenario s ≡ true
      → IsResolved r reruns provider (scenario, s)
  unfolding resolved
  resolved-IsResolved scenario pass h = inl refl
  resolved-IsResolved scenario s h =
      inr (ground arith, (rerun_rule provider scenario s reruns).0 (ground arith))

  scenarios-IsResolved :
      (scenarios : List (String × Status))
      → scenarios_resolved r reruns provider scenarios ≡ true
      → All (IsResolved r reruns provider) scenarios
  unfolding scenarios_resolved
  scenarios-IsResolved [] h = tt
  scenarios-IsResolved ((scenario, s) ∷ rest) h =
      (resolved-IsResolved scenario s (ground arith), scenarios-IsResolved rest (ground arith))

abbrev pub AllResolved : Report → List Report → Type 0
AllResolved r reruns =
    All (λ (p : String × List (String × Status)). All (IsResolved r reruns p.0) p.1)
      r.scenario_results

All-IsResolved :
    (r : Report) (reruns : List Report) (per : List (String × List (String × Status)))
    → all_resolved r reruns per ≡ true
    → All (λ (p : String × List (String × Status)). All (IsResolved r reruns p.0) p.1) per
unfolding all_resolved
All-IsResolved r reruns [] h = tt
All-IsResolved r reruns ((provider, scenarios) ∷ rest) h = (
  scenarios-IsResolved r reruns provider scenarios (ground arith),
  All-IsResolved r reruns rest (ground arith),
)

-- A report that matches is of exactly the target's code, ran on both provider routes, and passed, or
-- each of its scenarios passed, or failed in a documented shape, or had no verdict, and was then
-- accepted on its reruns: at most one failure, of a documented shape, before passes alone, of which
-- there are two after any failure and one after none.
pub matching_report :
    (r : Report) (target : Identity) (reruns : List Report)
    → report_matches r target reruns ≡ true
    → IsOfCode r target
      × (contains r.providers "anthropic" ≡ true)
      × (contains r.providers "codex" ≡ true)
      × ((r.result ≡ pass) ⊎ AllResolved r reruns)
unfolding report_matches
matching_report r target reruns h =
    (same_code-IsOfCode r target (ground arith), ground arith, ground arith, judged r.result refl)
  where
    judged : (s : Status) → r.result ≡ s → (r.result ≡ pass) ⊎ AllResolved r reruns
    judged pass e = inl e
    judged s e = inr (All-IsResolved r reruns r.scenario_results (ground arith))
