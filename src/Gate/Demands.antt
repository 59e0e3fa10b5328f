-- ===== src/Gate/Demands.antt =====
-- deploy/llm-inference/gate.py: `begin_demand`, `acquired` and `release_demand` of `GateState`.
-- Each function is one critical section; `acquired` waits, and `release_demand` leaves the lock for
-- the NVML check, so these two have two sections.
use recursive_harness_builde.Prelude.{
  codes, ℕ, String, Option, none, some, Bool, true, false, ◌&&◌, ◌||◌, not, List, [], ◌∷◌, leb,
  length, is_empty, is_some, or_else, lookup, insert, remove, ◌==◌, if◌then◌else◌, nat_eq,
  string_eq,
}
use recursive_harness_builde.Gate.State.{
  Gate, GateState, Demand, Demands, Mode, Phase, waiting_for_gpu, holding_gpu, is_opened,
  is_draining, is_waiting_external, is_external_hold, is_verifying_nvml, is_holding, persist,
  open_unlocked,
}

pub data DemandError : Type 0 where
  invalid_job_id recovery_required unknown_demand lock_mismatch not_ready timed_out : DemandError
  nvml_failed : String → DemandError
  qwen_appeared : DemandError

-- The fields of a control message; `none` is a key that is missing.
pub record Message : Type 0 where
  pub job_id : String
  pub worker_pid : Option ℕ
  pub waiting_since : Option ℕ
  pub lock_dev : Option ℕ
  pub lock_ino : Option ℕ
  pub acquired_at : Option ℕ

is_alnum : ℕ → Bool
is_alnum c = (leb b'A' c && leb c b'Z') || (leb b'a' c && leb c b'z') || (leb b'0' c && leb c b'9')

is_job_char : ℕ → Bool
unfolding is_alnum
is_job_char c = is_alnum c || c == b'.' || c == b'_' || c == b'-'

-- `JOB_ID_RE.fullmatch`
all_job_chars : List ℕ → Bool
unfolding is_job_char
all_job_chars [] = true
all_job_chars (c ∷ cs) = is_job_char c && all_job_chars cs

matches_job_id : List ℕ → Bool
unfolding is_alnum all_job_chars
matches_job_id [] = false
matches_job_id (c ∷ cs) = is_alnum c && all_job_chars cs && leb (length cs) 127

unfoldable pub valid_job_id : String → Bool
unfolding matches_job_id
valid_job_id s = matches_job_id (codes s)

-- `self.last_error is not None or self.recovery_required`
abbrev pub needs_recovery : GateState → Bool
needs_recovery s = is_some s.last_error || s.recovery_required

abbrev pub some_holding : Demands → Bool
some_holding [] = false
some_holding ((_, d) ∷ ds) = is_holding d.phase || some_holding ds

pub data Outcome : Type 0 where
  done waits : Outcome
  raised : DemandError → Outcome

-- The resets of `begin_demand` when the gate is open: a new cycle.
abbrev pub begin_cycle : ℕ → GateState → GateState
begin_cycle cycle s =
    if is_opened s.mode
    then record (open_unlocked s) {
      mode = Mode.draining;
      phase = Phase.draining;
      cycle_id = some cycle;
    }
    else s

abbrev pub begun : ℕ → ℕ → Message → Option Demand → Demand
begun object t m none = record {
  object = object;
  worker_pid = m.worker_pid;
  waiting_since = m.waiting_since;
  lock_dev = m.lock_dev;
  lock_ino = m.lock_ino;
  phase = waiting_for_gpu;
  demand_at = t;
  last_seen_at = t;
  acquired_at = none;
  acknowledged_at = none;
}
begun object t m (some d) = record {
  object = object;
  worker_pid = m.worker_pid;
  waiting_since = m.waiting_since;
  lock_dev = m.lock_dev;
  lock_ino = m.lock_ino;
  phase = d.phase;
  demand_at = d.demand_at;
  last_seen_at = t;
  acquired_at = none;
  acknowledged_at = none;
}

-- Whether `begin_demand` starts the coordinator.
abbrev pub starts : GateState → Bool
starts s = not s.coordinator_running && not s.unload_attempted && is_draining s.phase

-- `begin_demand`; `fresh` is the cycle id and the demand object that this call may make. The
-- Boolean says that the coordinator is to be launched.
unfoldable pub begin_demand : ℕ → ℕ → Message → Gate → Gate × Outcome × Bool
begin_demand fresh t m g =
    if not (valid_job_id m.job_id)
    then (g, raised invalid_job_id, false)
    else if needs_recovery g.state
    then (g, raised recovery_required, false)
    else let s = begin_cycle fresh g.state in
      let ds = insert m.job_id (begun fresh t m (lookup m.job_id s.demands)) s.demands in
      let s' = record s { demands = ds; coordinator_running = starts s || s.coordinator_running } in
      (persist t s', done, starts s)

-- `int(message.get(key, -1)) != expected`
abbrev pub differs : Option ℕ → ℕ → Bool
differs none n = true
differs (some m) n = not (m == n)

-- The assignments at the end of `acquired`, to the object that the call read at its start.
abbrev pub hold : ℕ → Message → Demand → Demand
hold t m d = record d {
  phase = holding_gpu;
  acquired_at = some (elim m.acquired_at [ none ↦ t | some a ↦ a ]);
  acknowledged_at = some t;
  worker_pid = or_else m.worker_pid d.worker_pid;
  last_seen_at = t;
}

abbrev pub hold_object : ℕ → ℕ → Message → Option Demand → Demands → Demands
hold_object object t m none ds = ds
hold_object object t m (some d) ds =
    if d.object == object then insert m.job_id (hold t m d) ds else ds

-- One round of the loop of `acquired`, and what follows it. `expired` says that the deadline of 30
-- seconds has passed, `object` is the demand that the call read at its start.
unfoldable pub acquired_round : Bool → ℕ → ℕ → Message → Gate → Gate × Outcome
acquired_round expired object t m g =
    if not (is_waiting_external g.state.phase)
    then if is_opened g.state.mode || needs_recovery g.state
      then (g, raised not_ready)
      else if expired
      then (g, raised timed_out)
      else (g, waits)
    else if needs_recovery g.state
    then (g, raised recovery_required)
    else (
      persist t (record g.state {
        demands = hold_object object t m (lookup m.job_id g.state.demands) g.state.demands;
        phase = Phase.external_hold;
      }),
      done,
    )

abbrev acquired_found : ℕ → ℕ → ℕ → Message → Gate → Option Demand → Gate × Outcome
acquired_found dev ino t m g none = (g, raised unknown_demand)
acquired_found dev ino t m g (some d) =
    if differs m.lock_dev dev || differs m.lock_ino ino
    then (g, raised lock_mismatch)
    else if needs_recovery g.state
    then (g, raised recovery_required)
    else if is_holding d.phase
    then (g, done)
    else acquired_round false d.object t m g

-- `acquired` up to its first wait; `dev` and `ino` identify the file at `GPU_LOCK_PATH`.
unfoldable pub acquired : ℕ → ℕ → ℕ → Message → Gate → Gate × Outcome
unfolding acquired_round
acquired dev ino t m g = acquired_found dev ino t m g (lookup m.job_id g.state.demands)

-- `release_demand`, its first section, once the demand is out of the dictionary.
abbrev released_state : GateState → GateState × Bool
released_state s =
    if needs_recovery s
    then (
      record s {
        mode = Mode.draining;
        phase = if is_some s.last_error then Phase.failed_closed else Phase.needs_recovery;
        recovery_required = true;
      },
      false,
    )
    else if not (is_empty s.demands)
    then if some_holding s.demands
      then (record s { phase = Phase.external_hold }, false)
      else if is_external_hold s.phase
      then (record s { phase = Phase.verifying_nvml }, true)
      else (s, false)
    else if s.coordinator_running
    then (record s { phase = Phase.cancelling }, false)
    else if not (is_verifying_nvml s.phase)
    then (open_unlocked s, false)
    else (s, false)

abbrev release_found : ℕ → String → Gate → Option Demand → Gate × Outcome × Bool
release_found t job g none = (g, raised unknown_demand, false)
release_found t job g (some _) =
    let (s, verify) = released_state (record g.state { demands = remove job g.state.demands }) in
    (persist t s, done, verify)

-- The Boolean is `verify_external_readiness`.
unfoldable pub release_demand : ℕ → String → Gate → Gate × Outcome × Bool
release_demand t job g = release_found t job g (lookup job g.state.demands)

abbrev pub fail_closed : String → GateState → GateState
fail_closed e s = record s {
  mode = Mode.draining;
  phase = Phase.failed_closed;
  last_error = some e;
  recovery_required = true;
}

-- The rest of `release_demand` after `require_no_qwen_nvml`: `nvml` is the error that it raised,
-- `qwen` says that `find_qwen_process` found one.
unfoldable pub verify_readiness : Option String → Bool → ℕ → Gate → Gate × Outcome
verify_readiness (some e) qwen t g = (persist t (fail_closed e g.state), raised (nvml_failed e))
verify_readiness none qwen t g =
    if needs_recovery g.state
    then (g, raised recovery_required)
    else if not (is_empty g.state.demands) && not (some_holding g.state.demands)
    then if qwen
      then (
        persist t (fail_closed "Qwen appeared during external-readiness verification" g.state),
        raised qwen_appeared,
      )
      else (persist t (record g.state { phase = Phase.waiting_external }), done)
    else if is_empty g.state.demands
    then (persist t (open_unlocked g.state), done)
    else (persist t g.state, done)
