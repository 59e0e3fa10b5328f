-- ===== src/Gate/Recovery.antt =====
-- deploy/llm-inference/gate.py: `_load`, `recover` and `try_auto_recover`.
use recursive_harness_builde.Prelude.{
  ℕ, String, Option, none, some, Bool, true, false, ◌||◌, not, is_empty, is_some, ltb,
  if◌then◌else◌,
}
use recursive_harness_builde.Gate.State.{
  Gate, GateState, Mode, Phase, Sample, Snapshot, Disk, absent, unreadable, saved, is_opened,
  persist, open_unlocked, initial,
}
use recursive_harness_builde.Gate.Coordinator.{Answer, ok, failed, same_process}

-- `previous_mode != "OPEN" or self.demands or interrupted_traffic`
abbrev pub interrupted : Snapshot → Bool
interrupted d = not (is_opened d.mode) || not (is_empty d.demands) || d.active || ltb 0 d.queued

-- `__init__` with `_load`: the gate that a restart finds; `fresh` is the cycle id that it may make.
unfoldable pub load : ℕ → ℕ → Disk → Gate
load fresh t absent = persist t (initial t)
load fresh t unreadable = persist t (record (initial t) {
  mode = Mode.draining;
  phase = Phase.needs_recovery;
  recovery_required = true;
  last_error = some "state load failed";
})
load fresh t (saved d) =
    if interrupted d
    then persist t (record (initial t) {
      demands = d.demands;
      mode = Mode.draining;
      phase = Phase.needs_recovery;
      recovery_required = true;
      cycle_id = some (elim d.cycle_id [ none ↦ fresh | some c ↦ c ]);
      unload_attempted = d.unload_attempted;
      unload_attempt_count = d.unload_attempt_count;
      unload_attempted_at = d.unload_attempted_at;
      unload_completed_at = d.unload_completed_at;
      unload_http_status = d.unload_http_status;
      qwen_pid = d.qwen_pid;
      qwen_port = d.qwen_port;
      qwen_exited_at = d.qwen_exited_at;
      qwen_vram_released_at = d.qwen_vram_released_at;
      slot_samples = d.slot_samples;
      last_error = d.last_error;
    })
    else persist t (initial t)

-- What `recover` reads from outside, in the order of its calls.
pub record RecoveryEnv : Type 0 where
  pub qwen : Option (ℕ × ℕ)
  pub first : Answer Sample
  pub qwen_again : Option (ℕ × ℕ)
  pub second : Answer Sample
  pub lease_free : Bool  -- the non-blocking `flock` succeeds
  pub clean_nvml : Option String  -- the error of `require_clean_recovery_nvml`
  pub qwen_last : Option (ℕ × ℕ)

pub data RecoveryError : Type 0 where
  not_awaiting work_present processing qwen_changed lease_not_held lease_held : RecoveryError
  qwen_appeared : RecoveryError
  outside : String → RecoveryError

pub data Recovered : Type 0 where
  reopened : Recovered
  declined : RecoveryError → Recovered

-- `self.active_ids or self.queue or self.demands or self.coordinator_running`
abbrev pub has_work : GateState → Bool
has_work s =
    not (is_empty s.active_ids)
    || not (is_empty s.queue)
    || not (is_empty s.demands)
    || s.coordinator_running

-- The first section of `recover`: the error that it raises.
unfoldable pub recover_check : Gate → Option RecoveryError
recover_check g =
    if is_opened g.state.mode || not g.state.recovery_required
    then some not_awaiting
    else if has_work g.state
    then some work_present
    else none

abbrev reopen : ℕ → Gate → Gate × Recovered
reopen t g = (persist t (open_unlocked g.state), reopened)

recover_lease : RecoveryEnv → ℕ → ℕ → ℕ → Gate → Gate × Recovered
recover_lease env pid port t g =
    if env.lease_free then (g, declined lease_not_held) else elim env.clean_nvml [
      | some e ↦ (g, declined (outside e))
      | none ↦
          if has_work g.state
          then (g, declined work_present)
          else if not (same_process env.qwen_last pid port)
          then (g, declined qwen_changed)
          else reopen t g
    ]

recover_beside : RecoveryEnv → ℕ → ℕ → ℕ → Gate → Sample → Gate × Recovered
unfolding recover_lease
recover_beside env pid port t g first =
    if first.is_processing
    then (g, declined processing)
    else if not (same_process env.qwen_again pid port)
    then (g, declined qwen_changed)
    else elim env.second [
      | failed e ↦ (g, declined (outside e))
      | ok second ↦
          if second.is_processing then (g, declined processing) else recover_lease env pid port t g
    ]

-- The rest of `recover`, after the first section has passed.
unfoldable pub recover_finish : RecoveryEnv → ℕ → Gate → Gate × Recovered
unfolding recover_beside
recover_finish env t g = elim env.qwen [
  | some (pid, port) ↦ elim env.first [
    | failed e ↦ (g, declined (outside e))
    | ok first ↦ recover_beside env pid port t g first
  ]
  | none ↦ if not env.lease_free then (g, declined lease_held) else elim env.clean_nvml [
    | some e ↦ (g, declined (outside e))
    | none ↦
        if has_work g.state
        then (g, declined work_present)
        else if is_some env.qwen_last
        then (g, declined qwen_appeared)
        else reopen t g
  ]
]

-- `recover` with nothing between its two sections.
unfoldable pub recover : RecoveryEnv → ℕ → Gate → Gate × Recovered
unfolding recover_check recover_finish
recover env t g = elim (recover_check g) [
  | some e ↦ (g, declined e)
  | none ↦ recover_finish env t g
]

-- `try_auto_recover`: the gate, and whether it was reopened.
unfoldable pub try_auto_recover : RecoveryEnv → ℕ → Gate → Gate × Bool
unfolding recover
try_auto_recover env t g =
    if is_opened g.state.mode || not g.state.recovery_required || has_work g.state
    then (g, false)
    else let (g', r) = recover env t g in (g', elim r [ reopened ↦ true | declined _ ↦ false ])
