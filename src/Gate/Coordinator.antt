-- ===== src/Gate/Coordinator.antt =====
-- deploy/llm-inference/gate.py: `coordinator`, `_finish_coordinator` and `_launch_coordinator`.
-- A program counter stands at each place where the thread holds no lock; `advance` runs it to the
-- next such place. What the thread learns from outside in between is an `Env`.
use recursive_harness_builde.Prelude.{
  ℕ, String, Option, none, some, Bool, true, false, ◌&&◌, ◌||◌, not, [], ◌∷◌, is_empty, is_some,
  ◌==◌, if◌then◌else◌, nat_eq,
}
use recursive_harness_builde.Gate.State.{
  Gate, GateState, Phase, Sample, UnloadStatus, http, transport, is_opened, is_cancelling, persist,
  open_unlocked,
}
use recursive_harness_builde.Gate.Demands.{needs_recovery, fail_closed}

-- What a call to the outside returns, or the text of what it raises.
pub data Answer {ℓ} (A : Type ℓ) : Type ℓ where
  ok : A → Answer A
  failed : String → Answer A

pub record Env : Type 0 where
  pub qwen : Option (ℕ × ℕ)  -- `find_qwen_process`: pid and port
  pub running : Answer Bool  -- `backend_running_models` is not empty
  pub unload : Answer UnloadStatus  -- `unload_backend_model`
  pub backend_unloaded : Bool  -- `wait_backend_unloaded`
  pub no_qwen_nvml : Option String  -- the error of `require_no_qwen_nvml`
  pub expected_nvml : Option String  -- the error of `require_expected_qwen_nvml`
  pub sample : Answer Sample  -- `slot_sample`
  pub process_exists : Bool  -- `Path(f"/proc/{pid}").exists()` up to the deadline
  pub vram_released : Answer Bool  -- `wait_qwen_vram_released`
  pub launch : Option String  -- the error of `Thread.start`

pub data Pc : Type 0 where
  launching starting finding asking unloading_backend awaiting_backend verifying_none : Pc
  looping sampling preflight nvml : ℕ → ℕ → Pc
  resampling confirming : ℕ → ℕ → Sample → Pc
  unloading exiting releasing : ℕ → Pc
  raised : String → Pc
  finishing ended : Pc

abbrev pub is_ended : Pc → Bool
is_ended ended = true
is_ended _ = false

abbrev pub is_unloading : Pc → Bool
is_unloading (unloading _) = true
is_unloading unloading_backend = true
is_unloading _ = false

-- `STATE.mode != "DRAINING" or not STATE.demands or STATE.cycle_id != cycle_id`
abbrev pub stale : ℕ → GateState → Bool
stale cycle s =
    is_opened s.mode
    || is_empty s.demands
    || not (elim s.cycle_id [ none ↦ false | some c ↦ c == cycle ])

-- The test before an unload: `STATE.unload_attempted or STATE.unload_attempt_count != 0`.
abbrev pub attempted : GateState → Bool
attempted s = s.unload_attempted || not (s.unload_attempt_count == 0)

abbrev pub start_unload : ℕ → GateState → GateState
start_unload t s = record s {
  phase = Phase.unloading_qwen;
  unload_attempted = true;
  unload_attempt_count = 1;
  unload_attempted_at = some t;
}

abbrev pub is_200 : UnloadStatus → Bool
is_200 (http n) = n == 200
is_200 (transport _) = false

abbrev pub same_process : Option (ℕ × ℕ) → ℕ → ℕ → Bool
same_process none pid port = false
same_process (some (p, q)) pid port = p == pid && q == port

-- The loop that waits for active requests, and the check after it.
unfoldable pub start_section : ℕ → ℕ → Gate → Gate × Pc
start_section cycle t g =
    if not (is_empty g.state.active_ids)
      && not (is_opened g.state.mode)
      && not (is_empty g.state.demands)
    then (persist t (record g.state { phase = Phase.waiting_active_request }), starting)
    else if stale cycle g.state
    then (g, finishing)
    else (persist t (record g.state { phase = Phase.sampling_idle }), finding)

find_section : Env → ℕ → Gate → Gate × Pc
find_section env t g = elim env.qwen [
  | none ↦ (g, asking)
  | some (pid, port) ↦
      (persist t (record g.state { qwen_pid = some pid; qwen_port = some port }), looping pid port)
]

ask_section : ℕ → Env → ℕ → Gate → Gate × Pc
ask_section cycle env t g = elim env.running [
  | failed e ↦ (g, raised e)
  | ok false ↦ (g, verifying_none)
  | ok true ↦
      if stale cycle g.state
      then (g, finishing)
      else if attempted g.state
      then (g, raised "backend unload was already attempted in this cycle")
      else (persist t (start_unload t g.state), unloading_backend)
]

-- An exception that `unload_backend_model` does not catch leaves the state as it is.
unload_section : Env → ℕ → Pc → String → Gate → Gate × Pc
unload_section env t next e g = elim env.unload [
  | failed error ↦ (g, raised error)
  | ok status ↦ (
    persist t (record g.state { unload_http_status = some status; unload_completed_at = some t }),
    if is_200 status then next else raised e,
  )
]

backend_section : Env → ℕ → Gate → Gate × Pc
backend_section env t g =
    if env.backend_unloaded
    then (
      persist t (record g.state { qwen_exited_at = some t; qwen_vram_released_at = some t }),
      verifying_none,
    )
    else (g, raised "backend model remained loaded after unload")

none_section : ℕ → Env → ℕ → Gate → Gate × Pc
none_section cycle env t g = elim env.no_qwen_nvml [
  | some e ↦ (g, raised e)
  | none ↦
      if stale cycle g.state
      then (g, finishing)
      else if is_some env.qwen
      then (g, raised "Qwen appeared during external-readiness verification")
      else (persist t (record g.state { phase = Phase.waiting_external }), finishing)
]

loop_section : ℕ → ℕ → ℕ → ℕ → Gate → Gate × Pc
loop_section cycle t pid port g =
    if stale cycle g.state
    then (g, finishing)
    else if not (is_empty g.state.active_ids)
    then (persist t (record g.state { phase = Phase.waiting_active_request }), looping pid port)
    else (g, sampling pid port)

sample_section : Env → ℕ → ℕ → ℕ → Gate → Gate × Pc
sample_section env t pid port g = elim env.sample [
  | failed e ↦ (g, raised e)
  | ok first ↦
      if first.is_processing
      then (
        persist t (record g.state { phase = Phase.waiting_active_slot; slot_samples = first ∷ [] }),
        looping pid port,
      )
      else (
        persist t (record g.state { phase = Phase.sampling_idle; slot_samples = first ∷ [] }),
        resampling pid port first,
      )
]

resample_section : ℕ → ℕ → ℕ → Sample → Gate → Gate × Pc
resample_section cycle pid port first g =
    if stale cycle g.state
    then (g, finishing)
    else if not (is_empty g.state.active_ids)
    then (g, looping pid port)
    else (g, confirming pid port first)

confirm_section : Env → ℕ → ℕ → ℕ → Sample → Gate → Gate × Pc
confirm_section env t pid port first g =
    if not (same_process env.qwen pid port)
    then (g, raised "Qwen PID or port changed between idle samples")
    else elim env.sample [
      | failed e ↦ (g, raised e)
      | ok second ↦ (
        persist t (record g.state { slot_samples = first ∷ second ∷ [] }),
        if second.is_processing then looping pid port else preflight pid port,
      )
    ]

-- The four checks that are made before the NVML preflight and again after it.
recheck : ℕ → Env → ℕ → ℕ → Gate × Pc → Gate → Gate × Pc
recheck cycle env pid port go g =
    if not (is_empty g.state.active_ids)
    then (g, raised "gate active request appeared")
    else if stale cycle g.state
    then (g, finishing)
    else if not (same_process env.qwen pid port)
    then (g, raised "Qwen process changed")
    else if attempted g.state
    then (g, raised "Qwen unload was already attempted in this cycle")
    else go

exit_section : Env → ℕ → ℕ → Gate → Gate × Pc
exit_section env t pid g =
    if env.process_exists
    then (g, raised "Qwen process did not exit after unload")
    else (persist t (record g.state { qwen_exited_at = some t }), releasing pid)

release_section : Env → ℕ → Gate → Gate × Pc
release_section env t g = elim env.vram_released [
  | failed e ↦ (g, raised e)
  | ok false ↦ (g, raised "Qwen VRAM remained allocated after unload")
  | ok true ↦
      if is_some env.qwen then (g, raised "Qwen appeared after VRAM release verification") else (
        persist t
            (record g.state { qwen_vram_released_at = some t; phase = Phase.waiting_external }),
        finishing,
      )
]

-- `_finish_coordinator`; where it returns true, the thread goes on to launch the next one.
unfoldable pub finish_coordinator : ℕ → ℕ → Gate → Gate × Pc
finish_coordinator cycle t g =
    let s = record g.state { coordinator_running = false } in
    if is_empty s.demands && not (is_opened s.mode)
    then if needs_recovery s
      then (persist t (record s { phase = Phase.needs_recovery; recovery_required = true }), ended)
      else (persist t (open_unlocked s), ended)
    else if not (stale cycle s) && is_cancelling s.phase && not (needs_recovery s)
    then (persist t (record s { phase = Phase.draining; coordinator_running = true }), launching)
    else (persist t s, ended)

-- `_launch_coordinator`
launch_section : Env → ℕ → Gate → Gate × Pc
launch_section env t g = elim env.launch [
  | none ↦ (g, starting)
  | some e ↦ (persist t (record (fail_closed e g.state) { coordinator_running = false }), ended)
]

unfoldable pub advance : ℕ → Env → ℕ → Pc → Gate → Gate × Pc
unfolding start_section find_section ask_section unload_section backend_section none_section
    loop_section sample_section resample_section confirm_section recheck exit_section
    release_section finish_coordinator launch_section
advance cycle env t launching g = launch_section env t g
advance cycle env t starting g = start_section cycle t g
advance cycle env t finding g = find_section env t g
advance cycle env t asking g = ask_section cycle env t g
advance cycle env t unloading_backend g =
    unload_section env t awaiting_backend "backend unload failed" g
advance cycle env t awaiting_backend g = backend_section env t g
advance cycle env t verifying_none g = none_section cycle env t g
advance cycle env t (looping pid port) g = loop_section cycle t pid port g
advance cycle env t (sampling pid port) g = sample_section env t pid port g
advance cycle env t (resampling pid port first) g = resample_section cycle pid port first g
advance cycle env t (confirming pid port first) g = confirm_section env t pid port first g
advance cycle env t (preflight pid port) g =
    recheck cycle env pid port
      (persist t (record g.state { phase = Phase.verifying_nvml }), nvml pid port) g
advance cycle env t (nvml pid port) g = elim env.expected_nvml [
  | some e ↦ (g, raised e)
  | none ↦ recheck cycle env pid port (persist t (start_unload t g.state), unloading pid) g
]
advance cycle env t (unloading pid) g = unload_section env t (exiting pid) "Qwen unload failed" g
advance cycle env t (exiting pid) g = exit_section env t pid g
advance cycle env t (releasing pid) g = release_section env t g
advance cycle env t (raised e) g =
    (persist t (record g.state { phase = Phase.failed_closed; last_error = some e }), finishing)
advance cycle env t finishing g = finish_coordinator cycle t g
advance cycle env t ended g = (g, ended)
