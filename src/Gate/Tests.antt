-- ===== src/Gate/Tests.antt =====
-- Runs of deploy/llm-inference/gate.py on concrete inputs.
use recursive_harness_builde.Prelude.{
  Pick, first, ℕ, ◌≤◌, ◌≡◌, ◌⊎◌, ◌↔◌, refl, none, some, Bool, true, false, [], ◌∷◌, length, inl,
  lookup, insert, contains, erase, string_eq, nat_eq, if◌then◌else◌,
}
use recursive_harness_builde.Gate.State.{
  Gate, GateState, Config, Mode, Phase, Disk, saved, snapshot, initial, UnloadStatus,
}
use recursive_harness_builde.Gate.Requests.{admit, admit_woken, release_request}
use recursive_harness_builde.Gate.Demands.{Message, begin_demand, valid_job_id}
use recursive_harness_builde.Gate.Coordinator.{
  Env, Pc, Answer, advance, launching, starting, finding, asking, verifying_none, is_unloading,
  stale, attempted,
}
use recursive_harness_builde.Gate.Recovery.{RecoveryEnv, recover, recover_finish, reopened, load}
use recursive_harness_builde.Gate.Threads.{World, Coordinator, Step, Reach, start, next}
use recursive_harness_builde.Gate.Safety.{external}
use recursive_harness_builde.Gate.Queues.{IsAhead, IsAscending}
use recursive_harness_builde.Gate.Admission
use recursive_harness_builde.Gate.Turns
use recursive_harness_builde.Gate.Failure
use recursive_harness_builde.Gate.Reachable

abbrev cfg : Config
cfg = record { concurrency_setting = 1; queue_limit = 4 }

abbrev job : Message
job = record {
  job_id = "job-1";
  worker_pid = some 7;
  waiting_since = none;
  lock_dev = some 1;
  lock_ino = some 2;
  acquired_at = none;
}

-- Nothing runs: no Qwen process, no model of the backend.
abbrev quiet : Env
quiet = record {
  qwen = none;
  running = Answer.ok false;
  unload = Answer.ok (UnloadStatus.http 200);
  backend_unloaded = true;
  no_qwen_nvml = none;
  expected_nvml = none;
  sample = Answer.failed "no slot";
  process_exists = false;
  vram_released = Answer.ok true;
  launch = none;
}

-- The backend runs a model that is no Qwen process.
abbrev serving : Env
serving = record quiet { running = Answer.ok true }

abbrev target : {timely : Bool} {w w' : World} → Step cfg timely w w' → World
target {w' = w'} st = w'

abbrev w0 : World
w0 = record {
  gate = load 0 0 Disk.absent;
  coordinators = [];
  acquirers = [];
  verifiers = [];
  recoverers = 0;
  fresh = 1;
}

r0 : Reach cfg true w0
r0 = start 0

abbrev at : Pc → Coordinator
at pc = record { cycle = 1; pc = pc }

abbrev w1 : World
w1 = target {timely = true} (Step.begin w0 1 job)

p1 : Pick (at launching) w1.coordinators []
unfolding begin_demand load valid_job_id lookup insert
p1 = first

abbrev w2 : World
w2 = target {timely = true} (Step.coordinate w1 quiet 2 p1)

p2 : Pick (at starting) w2.coordinators []
unfolding begin_demand load valid_job_id lookup insert advance
p2 = first

abbrev w3 : World
w3 = target {timely = true} (Step.coordinate w2 quiet 3 p2)

p3 : Pick (at finding) w3.coordinators []
unfolding begin_demand load valid_job_id lookup insert advance
p3 = first

abbrev w4 : World
w4 = target {timely = true} (Step.coordinate w3 quiet 4 p3)

p4 : Pick (at asking) w4.coordinators []
unfolding begin_demand load valid_job_id lookup insert advance
p4 = first

abbrev w5 : World
w5 = target {timely = true} (Step.coordinate w4 quiet 5 p4)

p5 : Pick (at verifying_none) w5.coordinators []
unfolding begin_demand load valid_job_id lookup insert advance
p5 = first

abbrev w6 : World
w6 = target {timely = true} (Step.coordinate w5 quiet 6 p5)

r4 : Reach cfg true w4
r4 =
    next
      (next (next (next r0 (Step.begin w0 1 job)) (Step.coordinate w1 quiet 2 p1))
        (Step.coordinate w2 quiet 3 p2))
      (Step.coordinate w3 quiet 4 p3)

r6 : Reach cfg true w6
r6 = next (next r4 (Step.coordinate w4 quiet 5 p4)) (Step.coordinate w5 quiet 6 p5)

handed_over : external w6.gate.state.phase ≡ true
unfolding begin_demand load valid_job_id lookup insert advance
handed_over = refl

handoff-excludes-requests_example :
    (w6.gate.state.active_ids ≡ []) × (w6.gate.state.mode ≡ Mode.draining)
handoff-excludes-requests_example = Reachable.handoff-excludes-requests cfg r6 (inl handed_over)

sole_coordinator_example :
    length w4.coordinators ≡ (if w4.gate.state.coordinator_running then 1 else 0)
sole_coordinator_example = Reachable.sole_coordinator cfg r4

unloads : is_unloading (advance 1 serving 5 asking w4.gate).1 ≡ true
unfolding begin_demand load valid_job_id lookup insert advance
unloads = refl

unload_guard_example :
    (w4.gate.state.active_ids ≡ [])
    × (stale 1 w4.gate.state ≡ false)
    × (attempted w4.gate.state ≡ false)
    × (attempted (advance 1 serving 5 asking w4.gate).0.state ≡ true)
unload_guard_example = Reachable.unload_guard cfg serving 5 r4 p4 unloads

Reach-IsWithin_example : (length w6.gate.state.active_ids ≤ 1) × (length w6.gate.state.queue ≤ 4)
Reach-IsWithin_example = Admission.Reach-IsWithin cfg r6

-- Three requests come, one of which gets in; it ends, and the next one enters.
abbrev v1 : World
v1 = target {timely = true} (Step.admit_first w0 1)

abbrev v2 : World
v2 = target {timely = true} (Step.admit_first v1 2)

abbrev v3 : World
v3 = target {timely = true} (Step.admit_first v2 3)

in_flight : contains v3.gate.state.active_ids 1 ≡ true
unfolding admit load contains
in_flight = refl

abbrev v4 : World
v4 = target {timely = true} (Step.request_done v3 1 4 in_flight)

first_waits : contains v4.gate.state.queue 2 ≡ true
unfolding admit load contains release_request
first_waits = refl

abbrev v5 : World
v5 = target {timely = true} (Step.admit_again v4 2 5 first_waits)

rv5 : Reach cfg true v5
rv5 =
    next
      (next
        (next (next (next r0 (Step.admit_first w0 1)) (Step.admit_first v1 2))
          (Step.admit_first v2 3))
        (Step.request_done v3 1 4 in_flight))
      (Step.admit_again v4 2 5 first_waits)

one_waits : (v5.gate.state.active_ids ≡ 2 ∷ []) × (v5.gate.state.queue ≡ 3 ∷ [])
unfolding admit load release_request admit_woken erase
one_waits = (refl, refl)

no_overtaking_example :
    IsAhead v5.gate.state.active_ids v5.gate.state.queue × IsAscending v5.gate.state.queue
no_overtaking_example = Turns.no_overtaking cfg rv5

-- A gate that a failed drain has closed, after a restart.
abbrev broken : GateState
broken = record (initial 9) {
  mode = Mode.draining;
  phase = Phase.failed_closed;
  cycle_id = some 1;
  last_error = some "timed out";
}

abbrev closed : Gate
closed = load 2 12 (saved (snapshot broken))

abbrev failing : Env
failing = record quiet { running = Answer.failed "timed out" }

abbrev w5' : World
w5' = target {timely = true} (Step.coordinate w4 failing 5 p4)

p5' : Pick (at (Pc.raised "timed out")) w5'.coordinators []
unfolding begin_demand load valid_job_id lookup insert advance
p5' = first

abbrev w6' : World
w6' = target {timely = true} (Step.coordinate w5' failing 6 p5')

r6' : Reach cfg true w6'
r6' = next (next r4 (Step.coordinate w4 failing 5 p4)) (Step.coordinate w5' failing 6 p5')

failed-IsLatched : Failure.IsLatched w6'.gate.state
unfolding begin_demand load valid_job_id lookup insert advance
failed-IsLatched = (refl, refl)

IsLatched-stays_example :
    Failure.IsLatched (load w6'.fresh 7 w6'.gate.disk).state
    ⊎ (Failure.IsRecovery cfg {timely = true} (Step.restart w6' 7)
        × (env : RecoveryEnv) × (t : ℕ) × (load w6'.fresh 7 w6'.gate.disk
            ≡ (recover_finish env t w6'.gate).0))
IsLatched-stays_example = Failure.IsLatched-stays cfg r6' (Step.restart w6' 7) failed-IsLatched

abbrev free_gpu : RecoveryEnv
free_gpu = record {
  qwen = none;
  first = Answer.failed "no slot";
  qwen_again = none;
  second = Answer.failed "no slot";
  lease_free = true;
  clean_nvml = none;
  qwen_last = none;
}

reopens : (recover free_gpu 14 closed).1 ≡ reopened
unfolding recover load
reopens = refl

recover-reopened_example :
    (closed.state.mode ≡ Mode.draining)
    × (closed.state.recovery_required ≡ true)
    × Failure.Idle closed.state
    × (free_gpu.clean_nvml ≡ none)
    × (((free_gpu.qwen ≡ none) × (free_gpu.qwen_last ≡ none) × (free_gpu.lease_free ≡ true))
        ⊎ ((p : ℕ × ℕ) × (free_gpu.qwen ≡ some p)
            × (free_gpu.qwen_again ≡ some p)
            × (free_gpu.qwen_last ≡ some p)
            × (Failure.reads_idle free_gpu.first ≡ true)
            × (Failure.reads_idle free_gpu.second ≡ true)
            × (free_gpu.lease_free ≡ false)))
recover-reopened_example = Failure.recover-reopened free_gpu 14 closed reopens

load-opened_example :
    (((load 2 12 (saved (snapshot broken))).state.mode ≡ Mode.opened) ↔ (
      (broken.mode ≡ Mode.opened)
      × (broken.demands ≡ [])
      × (broken.active_ids ≡ [])
      × (broken.queue ≡ [])))
    × ((load 2 12 (saved (snapshot broken))).state.mode ≡ Mode.draining
        → (load 2 12 (saved (snapshot broken))).state.recovery_required ≡ true)
    × ((load 2 12 (saved (snapshot broken))).state.demands ≡ broken.demands)
load-opened_example = Failure.load-opened 2 12 broken
