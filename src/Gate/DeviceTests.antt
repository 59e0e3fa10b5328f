-- ===== src/Gate/DeviceTests.antt =====
-- Runs of the NVML checks of deploy/llm-inference/gate.py, and of an `acquired` call that outlives its
-- demand.
use recursive_harness_builde.Prelude.{
  ◌≡◌, ◌≢◌, refl, none, some, true, false, [], ◌∷◌, lookup, string_eq,
}
use recursive_harness_builde.Gate.State.{
  Gate, Demand, Mode, Phase, waiting_for_gpu, persist, initial,
}
use recursive_harness_builde.Gate.Demands.{Message, done, waits, acquired, acquired_round}
use recursive_harness_builde.Gate.Nvml.{Application}
use recursive_harness_builde.Gate.Detached

abbrev qwen : Application
qwen = record { pid = 31; is_llama = true }

abbrev gone_job : Message
gone_job = record {
  job_id = "job-1";
  worker_pid = some 7;
  waiting_since = none;
  lock_dev = some 1;
  lock_ino = some 2;
  acquired_at = none;
}

abbrev next_job : Message
next_job = record gone_job { job_id = "job-2"; worker_pid = some 8 }

abbrev waiting : Demand
waiting = record {
  object = 5;
  worker_pid = some 8;
  waiting_since = none;
  lock_dev = some 1;
  lock_ino = some 2;
  phase = waiting_for_gpu;
  demand_at = 20;
  last_seen_at = 20;
  acquired_at = none;
  acknowledged_at = none;
}

-- The GPU is free for the second job; the call of the first, whose demand was object 4, still waits.
abbrev handed : Gate
handed = persist 21 (record (initial 1) {
  mode = Mode.draining;
  phase = Phase.waiting_external;
  cycle_id = some 3;
  demands = ("job-2", waiting) ∷ [];
})

released : (e : Demand) → lookup gone_job.job_id handed.state.demands ≡ some e → e.object ≢ 4
unfolding lookup
released e h = cc

found : lookup next_job.job_id handed.state.demands ≡ some waiting
unfolding lookup
found = refl

detached_acquire_example :
    ((acquired_round false 4 22 gone_job handed).1 ≡ done)
    × ((acquired_round false 4 22 gone_job handed).0.state.phase ≡ Phase.external_hold)
    × ((acquired_round false 4 22 gone_job handed).0.state.demands ≡ handed.state.demands)
    × ((acquired 1 2 23 next_job (acquired_round false 4 22 gone_job handed).0).1 ≡ waits)
detached_acquire_example =
    Detached.detached_acquire false 4 22 23 1 2 gone_job next_job handed waiting refl refl released
      found refl refl refl refl
