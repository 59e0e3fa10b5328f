-- ===== src/Watchdog/Tests.antt =====
-- Runs of src/obs_agent/spark_watchdog.py on concrete inputs.
use recursive_harness_builde.Prelude.{
  ℕ, ◌+◌, ◌≤◌, ◌≡◌, ◌↔◌, refl, Option, none, some, true, false, List, [], ◌∷◌, ◌++◌, All, length,
  lookup, insert, arith, string_eq,
}
use recursive_harness_builde.Watchdog.Detector.{
  Detector, Health, Verdict, History, Reason, wedged, observe, least, progress_vector, stall,
  down_after, crashloop,
}
use recursive_harness_builde.Watchdog.Ranks.{note_restarts, trim}
use recursive_harness_builde.Watchdog.Loop.{
  Restart, restart, recent, gap, must_wait, decide_restart, needs_restart,
}
use recursive_harness_builde.Watchdog.Liveness.{watch, IsQuiet, IsWatching}
use recursive_harness_builde.Watchdog.Liveness
use recursive_harness_builde.Watchdog.Backoff

abbrev busy : Health
busy = record {
  ok = true;
  requests_running = some 2;
  rounds_total = some 40;
  requests_total = some 7;
  completion_tokens_total = some 900;
  fetch_rows = none;
  prefill_rows = none;
  spill_written = none;
  spill_loaded = none;
}

abbrev seen : List (Option ℕ)
seen = some 40 ∷ some 7 ∷ some 900 ∷ none ∷ none ∷ none ∷ none ∷ []

-- The counters stood at `seen` when they last moved, 100 seconds after the start.
abbrev watching : Detector
watching = record {
  stall_ms = stall;
  down_ms = down_after;
  vector = some seen;
  progress_at = some 100_000;
  down_since = none;
  rank_history = ("head", (90_000, 1) ∷ []) ∷ [];
  mem = ("head", 9_000_000) ∷ [];
  oom_base = ("head", 3) ∷ [];
  xid_base = [];
  new_oom = [];
  new_hw_xid = [];
  hosts = [];
}

watching-IsQuiet : IsQuiet watching
unfolding crashloop least
watching-IsQuiet = record { no_loop = refl; no_xid = refl; no_oom = refl; roomy = refl }

busy-seen : progress_vector busy ≡ seen
unfolding progress_vector
busy-seen = refl

abbrev polls : List (ℕ × Option Health)
polls = (115_000, some busy) ∷ (130_000, some busy) ∷ []

wedged_iff_stalled_example :
    ((observe 700_000 (some busy) none (watch polls watching)).1.state ≡ wedged)
    ↔ (100_000 + stall ≤ 700_000)
wedged_iff_stalled_example =
    Liveness.wedged_iff_stalled seen 100_000 polls watching
      (record { quiet = watching-IsQuiet; vector = refl; since_at = refl })
      ((refl, busy-seen, refl), ((refl, busy-seen, refl), tt)) 700_000 (some busy)
      (refl, busy-seen, refl)

abbrev moved : Health
moved = record busy { rounds_total = some 41 }

abbrev stuck : Verdict
stuck = record { state = wedged; reason = Reason.no_progress }

abbrev past : List Restart
past = record { t = 600_000; ok = false } ∷ record { t = 1_000_000; ok = true } ∷ []

allowed : decide_restart 2_200_000 true past stuck ≡ restart
unfolding decide_restart recent must_wait gap
allowed = refl

restart_spacing_example :
    (needs_restart stuck.state ≡ true)
    × (true ≡ true)
    × ((old young : List Restart) × (past ≡ old ++ young)
        × All (Backoff.IsPast 2_200_000) old
        × All (Backoff.IsYoung 2_200_000) young
        × All (Backoff.IsAgo 600_000 2_200_000) young
        × (4 ≤ length young → All (Backoff.IsAgo 3_600_000 2_200_000) young))
restart_spacing_example =
    Backoff.restart_spacing 2_200_000 true past stuck (omega arith, (tt, tt)) allowed

abbrev crashed : History
crashed = (90_000, 1) ∷ (200_000, 3) ∷ []

probed : lookup "head" (note_restarts 200_000 "head" (some 3) watching).rank_history ≡ some crashed
unfolding lookup insert note_restarts trim
probed = refl
