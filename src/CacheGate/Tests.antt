-- ===== src/CacheGate/Tests.antt =====
-- Runs of src/obs_agent/cache_gate.py on concrete inputs.
use mathlib.Core.List.{Memᴰ}
use recursive_harness_builde.Prelude.{
  ℕ, ◌≤◌, ◌≡◌, ◌≢◌, ◌↔◌, ◌⊎◌, refl, none, some, true, false, List, [], ◌∷◌, ◌++◌, map, All,
  contains, string_eq, lookup,
}
use recursive_harness_builde.CacheGate.Reports.{
  Report, Identity, pass, provider_error, other, same_code, has_no_verdict, known_intermittent,
}
use recursive_harness_builde.CacheGate.Rerun.{passed, failed, outcome, rerun_verdict}
use recursive_harness_builde.CacheGate.Rule.{replicate, heard, passes_wanted}
use recursive_harness_builde.CacheGate.Matching.{report_matches, IsOfCode, AllResolved}
use recursive_harness_builde.CacheGate.Search.{
  Loaded, Running, Repository, newest_first, oldest_first, kept_among, reruns_of,
  find_passing_report, both, proxy_changed, touched_files, check,
}
use recursive_harness_builde.CacheGate.Verdict.{IsUntouched}
use recursive_harness_builde.CacheGate.Rule
use recursive_harness_builde.CacheGate.Verdict

abbrev target : Identity
target = record {
  head = some "af31";
  dirty = some "clean";
  cliproxy = some "c1";
  proxy_source = some "p1";
}

-- A full run in which one scenario had no verdict.
abbrev full : Report
full = record {
  code = target;
  scenarios = some "all";
  providers = "anthropic" ∷ "codex" ∷ [];
  result = other "FAIL";
  scenario_results =
      ("anthropic", ("resume", pass) ∷ []) ∷ ("codex", ("resume", provider_error) ∷ []) ∷ [];
  scenario_failures = [];
}

abbrev rerun : Report
rerun = record full {
  scenarios = some "resume";
  providers = "codex" ∷ [];
  result = pass;
  scenario_results = ("codex", ("resume", pass) ∷ []) ∷ [];
}

rerun_rule_example : (rerun_verdict "codex" "resume" provider_error (rerun ∷ []) ≡ true) ↔ (
    (k m : ℕ) × (heard (map (outcome "codex" "resume") (rerun ∷ []))
      ≡ replicate k (failed true) ++ replicate m passed)
    × (k ≤ 1)
    × (passes_wanted (has_no_verdict provider_error) k ≤ m))
rerun_rule_example = Rule.rerun_rule "codex" "resume" provider_error (rerun ∷ [])

full_matches : report_matches full target (rerun ∷ []) ≡ true
unfolding report_matches same_code contains lookup rerun_verdict known_intermittent
full_matches = refl

abbrev read : List Loaded
read =
    record { mtime = 20; directory = "rerun"; report = rerun }
    ∷ record { mtime = 10; directory = "full"; report = full }
    ∷ []

abbrev full_entry : Loaded
full_entry = record { mtime = 10; directory = "full"; report = full }

abbrev repository : Repository
repository = record {
  sensitive = "src/obs_agent/tools.py" ∷ "uv.lock" ∷ [];
  sensitive_at = λ base. some ("src/obs_agent/runner.py" ∷ []);
  changed_since = λ base. some ("src/obs_agent/runner.py" ∷ []);
}

abbrev running : Running
running = record { head = some "b002"; dirty = some "clean"; cliproxy = some "c1" }

passes : (check repository target none (some running) read).ok ≡ true
unfolding check touched_files both proxy_changed find_passing_report report_matches same_code
    contains lookup rerun_verdict oldest_first kept_among known_intermittent
passes = refl

gate_passes_example :
    IsUntouched repository target none (some running)
    ⊎ ((l : Loaded) × Memᴰ l read
        × ((check repository target none (some running) read).report ≡ some l.directory)
        × IsOfCode l.report target
        × (contains l.report.providers "anthropic" ≡ true)
        × (contains l.report.providers "codex" ≡ true)
        × ((l.report.result ≡ pass)
            ⊎ AllResolved l.report (reruns_of target (newest_first read) l)))
gate_passes_example = Verdict.gate_passes repository target none (some running) read passes

refuses : (check repository target none (some running) (full_entry ∷ [])).ok ≡ false
unfolding check touched_files both proxy_changed find_passing_report report_matches same_code
    contains lookup rerun_verdict oldest_first kept_among known_intermittent
refuses = refl

gate_refuses_example :
    All
      (λ (l : Loaded).
        report_matches l.report target (reruns_of target (newest_first (full_entry ∷ [])) l)
        ≡ false)
      (full_entry ∷ [])
    × ((Verdict.changed repository target none (some running) (full_entry ∷ []) ≡ none)
        ⊎ (Verdict.touched repository target none (some running) (full_entry ∷ []) ≢ []))
    × ((check repository target none (some running) (full_entry ∷ [])).touched
        ≡ Verdict.touched repository target none (some running) (full_entry ∷ []))
gate_refuses_example =
    Verdict.gate_refuses repository target none (some running) (full_entry ∷ []) refuses
