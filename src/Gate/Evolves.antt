-- ===== src/Gate/Evolves.antt =====
-- What every critical section of deploy/llm-inference/gate.py leaves to the threads that are inside
-- another call: the cycle is the same, gone or new, and within a cycle a drained gate stays drained.
use recursive_harness_builde.Prelude.{
  ℕ, ◌≡◌, String, Option, none, some, Bool, true, false, not, [], arith, ◌⊎◌, erase, nat_eq,
  is_some,
}
use recursive_harness_builde.Gate.State.{Gate, GateState, Config, Mode}
use recursive_harness_builde.Gate.Requests.{admit, admit_woken, release_request}
use recursive_harness_builde.Gate.Demands.{
  Message, begin_demand, acquired, acquired_round, release_demand, verify_readiness,
}
use recursive_harness_builde.Gate.Coordinator.{Env, Pc, launching, advance, is_ended}
use recursive_harness_builde.Gate.Recovery.{RecoveryEnv, recover_finish}
use recursive_harness_builde.Gate.Safety.{IsDrained, IsExclusive}

pub record Evolves (fresh : ℕ) (s s' : GateState) : Type 0 where
  pub cycle : (s'.cycle_id ≡ s.cycle_id) ⊎ ((s'.cycle_id ≡ none) ⊎ (s'.cycle_id ≡ some fresh))
  pub drained : s'.cycle_id ≡ s.cycle_id → IsDrained s → IsDrained s'
  pub idle : s.mode ≡ Mode.draining → s.active_ids ≡ [] → s'.active_ids ≡ []

abbrev pub IsSettled : GateState → GateState → Type 0
IsSettled s s' = (s'.cycle_id ≡ s.cycle_id) ⊎ (s'.cycle_id ≡ none)

-- The sections that neither start nor end a coordinator, and begin no cycle.
pub record Leaves (fresh : ℕ) (s s' : GateState) : Type 0 where
  pub evolves : Evolves fresh s s'
  pub settled : IsSettled s s'
  pub running : s'.coordinator_running ≡ s.coordinator_running

module _ (fresh t : ℕ) (g : Gate) where
  pub admit-Leaves :
      (cfg : Config) (ticket : ℕ) → Leaves fresh g.state (admit cfg ticket t g).0.state
  unfolding admit
  admit-Leaves cfg ticket = ground arith

  pub admit_woken-Leaves :
      (cfg : Config) (ticket : ℕ) → Leaves fresh g.state (admit_woken cfg ticket t g).0.state
  unfolding admit_woken
  admit_woken-Leaves cfg ticket = ground arith

  pub release_request-Leaves :
      (ticket : ℕ) → Leaves fresh g.state (release_request ticket t g).state
  unfolding release_request erase
  release_request-Leaves ticket = ground arith

  pub acquired_round-Leaves :
      (expired : Bool) (object : ℕ) (m : Message)
      → Leaves fresh g.state (acquired_round expired object t m g).0.state
  unfolding acquired_round
  acquired_round-Leaves expired object m = ground arith

  pub acquired-Leaves :
      (dev ino : ℕ) (m : Message) → Leaves fresh g.state (acquired dev ino t m g).0.state
  unfolding acquired
  acquired-Leaves dev ino m = ground arith

  pub release_demand-Leaves : (job : String) → Leaves fresh g.state (release_demand t job g).0.state
  unfolding release_demand
  release_demand-Leaves job = ground arith

  pub verify_readiness-Leaves :
      (nvml : Option String) (qwen : Bool)
      → Leaves fresh g.state (verify_readiness nvml qwen t g).0.state
  unfolding verify_readiness
  verify_readiness-Leaves none qwen = ground arith
  verify_readiness-Leaves (some e) qwen = ground arith

  pub recover_finish-Leaves :
      (env : RecoveryEnv) → Leaves fresh g.state (recover_finish env t g).0.state
  unfolding recover_finish
  recover_finish-Leaves env = ground arith

  pub begin_demand-Evolves :
      (m : Message) → Evolves fresh g.state (begin_demand fresh t m g).0.state
  unfolding begin_demand
  begin_demand-Evolves m = ground arith

  pub advance-Evolves :
      (cycle : ℕ) (env : Env) (pc : Pc) → Evolves fresh g.state (advance cycle env t pc g).0.state
  unfolding advance
  advance-Evolves cycle env launching = ground arith
  advance-Evolves cycle env pc = ground arith

  pub advance-IsSettled :
      (cycle : ℕ) (env : Env) (pc : Pc) → IsSettled g.state (advance cycle env t pc g).0.state
  unfolding advance
  advance-IsSettled cycle env launching = ground arith
  advance-IsSettled cycle env pc = ground arith

  -- What `begin_demand` says of the coordinator that it starts.
  pub begin_demand-starts :
      (m : Message)
      → IsExclusive g.state
      → (begin_demand fresh t m g).2 ≡ true
      → (g.state.coordinator_running ≡ false)
        × ((begin_demand fresh t m g).0.state.coordinator_running ≡ true)
        × (is_some (begin_demand fresh t m g).0.state.cycle_id ≡ true)
  unfolding begin_demand
  begin_demand-starts m i h = ground arith

  pub begin_demand-keeps :
      (m : Message)
      → (begin_demand fresh t m g).2 ≡ false
      → (begin_demand fresh t m g).0.state.coordinator_running ≡ g.state.coordinator_running
  unfolding begin_demand
  begin_demand-keeps m h = ground arith

  -- A release that goes on to an NVML check found the gate held.
  pub release_demand-verifies :
      (job : String)
      → IsExclusive g.state
      → (release_demand t job g).2 ≡ true
      → IsDrained (release_demand t job g).0.state
  unfolding release_demand
  release_demand-verifies job i h = ground arith

  -- A coordinator's flag is down exactly when its thread has ended.
  pub running-advance :
      (cycle : ℕ) (env : Env) (pc : Pc)
      → is_ended pc ≡ false
      → g.state.coordinator_running ≡ true
      → (advance cycle env t pc g).0.state.coordinator_running
        ≡ not (is_ended (advance cycle env t pc g).1)
  unfolding advance
  running-advance cycle env launching e r = ground arith
  running-advance cycle env pc e r = ground arith
