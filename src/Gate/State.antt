-- ===== src/Gate/State.antt =====
-- deploy/llm-inference/gate.py: the data of `GateState`, its snapshot, and what is on disk.
-- Clock readings, tickets and cycle ids are numbers; `now()` is read once for each critical section.
use recursive_harness_builde.Prelude.{
  ℕ, max, String, Option, none, Bool, true, false, not, List, [], length, is_empty,
}

pub data Mode : Type 0 where
  opened draining : Mode

pub data Phase : Type 0 where
  opened draining waiting_active_request waiting_active_slot sampling_idle verifying_nvml : Phase
  unloading_qwen waiting_external external_hold cancelling failed_closed needs_recovery : Phase

pub data DemandPhase : Type 0 where
  waiting_for_gpu holding_gpu : DemandPhase

-- An HTTP status, or the text of a transport failure.
pub data UnloadStatus : Type 0 where
  http : ℕ → UnloadStatus
  transport : String → UnloadStatus

-- `slot_sample`: the fields that the gate reads back.
pub record Sample : Type 0 where
  pub sampled_at : ℕ
  pub is_processing : Bool

-- One value of `self.demands`. `object` tells dictionary objects apart: a later `begin` of the
-- same job makes a new one, and an `acquired` call that waits keeps the one that it read.
pub record Demand : Type 0 where
  pub object : ℕ
  pub worker_pid : Option ℕ
  pub waiting_since : Option ℕ
  pub lock_dev : Option ℕ
  pub lock_ino : Option ℕ
  pub phase : DemandPhase
  pub demand_at : ℕ
  pub last_seen_at : ℕ
  pub acquired_at : Option ℕ
  pub acknowledged_at : Option ℕ

abbrev pub Demands : Type 0
Demands = List (String × Demand)

pub record GateState : Type 0 where
  pub mode : Mode
  pub active_ids : List ℕ
  pub queue : List ℕ
  pub demands : Demands
  pub cycle_id : Option ℕ
  pub phase : Phase
  pub coordinator_running : Bool
  pub recovery_required : Bool
  pub unload_attempted : Bool
  pub unload_attempt_count : ℕ
  pub unload_attempted_at : Option ℕ
  pub unload_completed_at : Option ℕ
  pub unload_http_status : Option UnloadStatus
  pub qwen_pid : Option ℕ
  pub qwen_port : Option ℕ
  pub qwen_exited_at : Option ℕ
  pub qwen_vram_released_at : Option ℕ
  pub slot_samples : List Sample
  pub last_error : Option String
  pub updated_at : ℕ

-- `snapshot_unlocked`, less the version and the two limits, which are constants.
pub record Snapshot : Type 0 where
  pub mode : Mode
  pub phase : Phase
  pub active : Bool
  pub active_count : ℕ
  pub queued : ℕ
  pub demands : Demands
  pub cycle_id : Option ℕ
  pub coordinator_running : Bool
  pub recovery_required : Bool
  pub unload_attempted : Bool
  pub unload_attempt_count : ℕ
  pub unload_attempted_at : Option ℕ
  pub unload_completed_at : Option ℕ
  pub unload_http_status : Option UnloadStatus
  pub qwen_pid : Option ℕ
  pub qwen_port : Option ℕ
  pub qwen_exited_at : Option ℕ
  pub qwen_vram_released_at : Option ℕ
  pub slot_samples : List Sample
  pub last_error : Option String
  pub updated_at : ℕ

-- The file at `STATE_PATH`.
pub data Disk : Type 0 where
  absent unreadable : Disk
  saved : Snapshot → Disk

pub record Gate : Type 0 where
  pub state : GateState
  pub disk : Disk

pub record Config : Type 0 where
  pub concurrency_setting : ℕ
  pub queue_limit : ℕ

-- `max(1, int(os.environ.get("GATE_CONCURRENCY_LIMIT", "1")))`
abbrev pub concurrency_limit : Config → ℕ
concurrency_limit c = max 1 c.concurrency_setting

abbrev pub snapshot : GateState → Snapshot
snapshot s = record {
  mode = s.mode;
  phase = s.phase;
  active = not (is_empty s.active_ids);
  active_count = length s.active_ids;
  queued = length s.queue;
  demands = s.demands;
  cycle_id = s.cycle_id;
  coordinator_running = s.coordinator_running;
  recovery_required = s.recovery_required;
  unload_attempted = s.unload_attempted;
  unload_attempt_count = s.unload_attempt_count;
  unload_attempted_at = s.unload_attempted_at;
  unload_completed_at = s.unload_completed_at;
  unload_http_status = s.unload_http_status;
  qwen_pid = s.qwen_pid;
  qwen_port = s.qwen_port;
  qwen_exited_at = s.qwen_exited_at;
  qwen_vram_released_at = s.qwen_vram_released_at;
  slot_samples = s.slot_samples;
  last_error = s.last_error;
  updated_at = s.updated_at;
}

-- `_persist_unlocked` where its writes succeed: `os.replace` makes them atomic. In the source an OSError
-- of `mkdir`, of the write or of `os.replace` leaves the new state in memory and the old file.
abbrev pub persist : ℕ → GateState → Gate
persist t s =
    let s' = record s { updated_at = t } in record { state = s'; disk = saved (snapshot s') }

-- `_open_unlocked`
abbrev pub open_unlocked : GateState → GateState
open_unlocked s = record s {
  mode = opened;
  phase = opened;
  cycle_id = none;
  recovery_required = false;
  unload_attempted = false;
  unload_attempt_count = 0;
  unload_attempted_at = none;
  unload_completed_at = none;
  unload_http_status = none;
  qwen_pid = none;
  qwen_port = none;
  qwen_exited_at = none;
  qwen_vram_released_at = none;
  slot_samples = [];
  last_error = none;
}

-- The assignments of `__init__` before `_load`.
abbrev pub initial : ℕ → GateState
initial t = record {
  mode = opened;
  active_ids = [];
  queue = [];
  demands = [];
  cycle_id = none;
  phase = opened;
  coordinator_running = false;
  recovery_required = false;
  unload_attempted = false;
  unload_attempt_count = 0;
  unload_attempted_at = none;
  unload_completed_at = none;
  unload_http_status = none;
  qwen_pid = none;
  qwen_port = none;
  qwen_exited_at = none;
  qwen_vram_released_at = none;
  slot_samples = [];
  last_error = none;
  updated_at = t;
}

abbrev pub is_opened : Mode → Bool
is_opened opened = true
is_opened draining = false

abbrev pub is_draining : Phase → Bool
is_draining draining = true
is_draining _ = false

abbrev pub is_waiting_external : Phase → Bool
is_waiting_external waiting_external = true
is_waiting_external _ = false

abbrev pub is_external_hold : Phase → Bool
is_external_hold external_hold = true
is_external_hold _ = false

abbrev pub is_verifying_nvml : Phase → Bool
is_verifying_nvml verifying_nvml = true
is_verifying_nvml _ = false

abbrev pub is_cancelling : Phase → Bool
is_cancelling cancelling = true
is_cancelling _ = false

abbrev pub is_holding : DemandPhase → Bool
is_holding holding_gpu = true
is_holding waiting_for_gpu = false
