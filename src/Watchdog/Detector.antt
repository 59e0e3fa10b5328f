-- ===== src/Watchdog/Detector.antt =====
-- src/obs_agent/spark_watchdog.py: `progress_vector`, `Verdict` and `Detector`.
-- Clock readings are in milliseconds and memory is in KiB, so that the source's constants are exact.
use recursive_harness_builde.Prelude.{
  ℕ, ◌+◌, ◌*◌, String, Option, none, some, Bool, true, false, ◌&&◌, ◌||◌, not, List, [], ◌∷◌, ltb,
  leb, is_some, ◌==◌, nat_eq, string_eq, if◌then◌else◌,
}

abbrev pub poll : ℕ
poll = 15_000

abbrev pub stall : ℕ
stall = 600_000

abbrev pub down_after : ℕ
down_after = 300_000

abbrev pub crashloop_restarts : ℕ
crashloop_restarts = 2

abbrev pub crashloop_window : ℕ
crashloop_window = 600_000

-- 3.0 and 1.0 GiB
abbrev pub mem_recycle : ℕ
mem_recycle = 3_145_728

abbrev pub mem_force : ℕ
mem_force = 1_048_576

abbrev pub gpu_temp_warn : ℕ
gpu_temp_warn = 90

abbrev pub hardware_xids : List ℕ
hardware_xids = 48 ∷ 61 ∷ 62 ∷ 63 ∷ 64 ∷ 74 ∷ 79 ∷ 92 ∷ 94 ∷ 95 ∷ 119 ∷ 120 ∷ []

-- The keys of `/health` that the watchdog reads; `none` is a key that is missing.
pub record Health : Type 0 where
  pub ok : Bool
  pub requests_running : Option ℕ
  pub rounds_total : Option ℕ
  pub requests_total : Option ℕ
  pub completion_tokens_total : Option ℕ
  pub fetch_rows : Option ℕ
  pub prefill_rows : Option ℕ
  pub spill_written : Option ℕ
  pub spill_loaded : Option ℕ

abbrev pub Vector : Type 0
Vector = List (Option ℕ)

unfoldable pub progress_vector : Health → Vector
progress_vector h =
    h.rounds_total ∷ h.requests_total ∷ h.completion_tokens_total ∷ h.fetch_rows ∷ h.prefill_rows
    ∷ h.spill_written ∷ h.spill_loaded ∷ []

pub data State : Type 0 where
  healthy suspect wedged down recycle maintenance : State

pub data Reason : Type 0 where
  in_maintenance : String → Reason
  crash_loop hardware_xid oom_killer memory_forced memory_low : String → Reason
  unreachable not_ok running_ok no_progress : Reason

pub record Verdict : Type 0 where
  pub state : State
  pub reason : Reason

-- One answer of the rank probe.
pub record RankInfo : Type 0 where
  pub mem_available : Option ℕ
  pub oom_kills : Option ℕ
  pub xids : Option (List ℕ)
  pub gpu_temp : Option ℕ
  pub restart_count : Option ℕ

-- What `hosts` publishes of a probe: the probe itself, and whether the GPU is hot.
pub record Summary : Type 0 where
  pub info : RankInfo
  pub hot : Bool

abbrev pub History : Type 0
History = List (ℕ × ℕ)

pub record Detector : Type 0 where
  pub stall_ms : ℕ
  pub down_ms : ℕ
  pub vector : Option Vector
  pub progress_at : Option ℕ
  pub down_since : Option ℕ
  pub rank_history : List (String × History)
  pub mem : List (String × ℕ)
  pub oom_base : List (String × ℕ)
  pub xid_base : List (String × ℕ)
  pub new_oom : List (String × ℕ)
  pub new_hw_xid : List (String × List ℕ)
  pub hosts : List (String × Summary)

-- `reset`
unfoldable pub reset : ℕ → Detector → Detector
reset now d = record d {
  vector = none;
  progress_at = some now;
  down_since = none;
  rank_history = [];
  mem = [];
  new_oom = [];
  new_hw_xid = [];
}

abbrev pub option_eq : Option ℕ → Option ℕ → Bool
option_eq none none = true
option_eq none (some b) = false
option_eq (some a) none = false
option_eq (some a) (some b) = a == b

unfoldable pub vector_eq : Vector → Vector → Bool
vector_eq [] [] = true
vector_eq [] (b ∷ bs) = false
vector_eq (a ∷ as') [] = false
vector_eq (a ∷ as') (b ∷ bs) = option_eq a b && vector_eq as' bs

-- `not running`
abbrev pub is_idle : Option ℕ → Bool
is_idle none = true
is_idle (some n) = n == 0

abbrev pub last : ℕ × ℕ → History → ℕ × ℕ
last e [] = e
last e (f ∷ h) = last f h

-- The test of `_crashloop` on one host: the first and the last entry of its history.
abbrev pub is_looping : History → Bool
is_looping [] = false
is_looping (e ∷ []) = false
is_looping (e ∷ f ∷ h) = leb (e.1 + crashloop_restarts) (last f h).1

-- `_crashloop`: the first host that restarts over and over.
unfoldable pub crashloop : List (String × History) → Option String
crashloop [] = none
crashloop ((host, h) ∷ rest) = if is_looping h then some host else crashloop rest

-- `min(self._mem.items(), key=…)` for a dictionary that is not empty: the first least entry.
unfoldable pub least : String × ℕ → List (String × ℕ) → String × ℕ
least e [] = e
least e (f ∷ rest) = least (if ltb f.1 e.1 then f else e) rest

abbrev pub progressed : ℕ → Vector → Option ℕ → Detector → Bool
progressed now v running d =
    not (elim d.vector [ none ↦ false | some u ↦ vector_eq v u ])
    || not (is_some d.progress_at)
    || is_idle running

abbrev pub get_at : Option ℕ → ℕ
get_at none = 0
get_at (some t) = t

-- The end of `observe`: progress, or the lack of it.
unfoldable pub judge_progress : ℕ → Health → Detector → Detector × Verdict
judge_progress now h d =
    if progressed now (progress_vector h) h.requests_running d
    then (
      record d { vector = some (progress_vector h); progress_at = some now },
      record { state = healthy; reason = running_ok },
    )
    else if leb (get_at d.progress_at + d.stall_ms) now
    then (d, record { state = wedged; reason = no_progress })
    else if leb (get_at d.progress_at + 2 * poll) now
    then (d, record { state = suspect; reason = no_progress })
    else (d, record { state = healthy; reason = running_ok })

unfoldable pub judge_memory : ℕ → Health → Detector → List (String × ℕ) → Detector × Verdict
judge_memory now h d [] = judge_progress now h d
judge_memory now h d (e ∷ rest) =
    let (host, low) = least e rest in
    if ltb low mem_force
    then (d, record { state = recycle; reason = memory_forced host })
    else if ltb low mem_recycle && is_idle h.requests_running
    then (d, record { state = recycle; reason = memory_low host })
    else judge_progress now h d

unfoldable pub judge_oom : ℕ → Health → Detector → List (String × ℕ) → Detector × Verdict
judge_oom now h d [] = judge_memory now h d d.mem
judge_oom now h d ((host, _) ∷ _) =
    (record d { new_oom = [] }, record { state = recycle; reason = oom_killer host })

unfoldable pub judge_xid : ℕ → Health → Detector → List (String × List ℕ) → Detector × Verdict
judge_xid now h d [] = judge_oom now h d d.new_oom
judge_xid now h d ((host, _) ∷ _) =
    (record d { new_hw_xid = [] }, record { state = down; reason = hardware_xid host })

-- The branch of `observe` for a `/health` that is not ok; `since` is `_down_since` when it is set.
unfoldable pub judge_down : ℕ → ℕ → Reason → Detector → Detector × Verdict
judge_down now since why d =
    let d' = record d { down_since = some since } in
    if leb (since + d.down_ms) now
    then (d', record { state = down; reason = why })
    else (d', record { state = suspect; reason = why })

abbrev pub or_now : ℕ → Option ℕ → ℕ
or_now now none = now
or_now now (some t) = t

unfoldable pub judge_health : ℕ → Option Health → Detector → Detector × Verdict
judge_health now none d = judge_down now (or_now now d.down_since) unreachable d
judge_health now (some h) d =
    if h.ok
    then judge_xid now h (record d { down_since = none }) d.new_hw_xid
    else judge_down now (or_now now d.down_since) not_ok d

unfoldable pub judge_loop : ℕ → Option Health → Detector → Option String → Detector × Verdict
judge_loop now h d none = judge_health now h d
judge_loop now h d (some host) = (d, record { state = down; reason = crash_loop host })

-- `observe`
unfoldable pub observe : ℕ → Option Health → Option String → Detector → Detector × Verdict
observe now h (some m) d = (reset now d, record { state = maintenance; reason = in_maintenance m })
observe now h none d = judge_loop now h d (crashloop d.rank_history)
