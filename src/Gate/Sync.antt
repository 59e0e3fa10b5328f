-- ===== src/Gate/Sync.antt =====
-- deploy/llm-inference/gate.py: every critical section leaves its state on disk, as the writes succeed.
use recursive_harness_builde.Prelude.{ℕ, ◌≡◌, String, Option, none, some, Bool, arith}
use recursive_harness_builde.Gate.State.{Gate, Config, Disk, saved, snapshot}
use recursive_harness_builde.Gate.Requests.{admit, admit_woken, release_request}
use recursive_harness_builde.Gate.Demands.{
  Message, begin_demand, acquired, acquired_round, release_demand, verify_readiness,
}
use recursive_harness_builde.Gate.Coordinator.{Env, Pc, launching, advance}
use recursive_harness_builde.Gate.Recovery.{RecoveryEnv, recover_finish, load}

abbrev pub IsSynced : Gate → Type 0
IsSynced g = g.disk ≡ saved (snapshot g.state)

module _ (fresh t : ℕ) (g : Gate) (h : IsSynced g) where
  pub admit-IsSynced : (cfg : Config) (ticket : ℕ) → IsSynced (admit cfg ticket t g).0
  unfolding admit
  admit-IsSynced cfg ticket = ground arith

  pub admit_woken-IsSynced : (cfg : Config) (ticket : ℕ) → IsSynced (admit_woken cfg ticket t g).0
  unfolding admit_woken
  admit_woken-IsSynced cfg ticket = ground arith

  pub acquired_round-IsSynced :
      (expired : Bool) (object : ℕ) (m : Message) → IsSynced (acquired_round expired object t m g).0
  unfolding acquired_round
  acquired_round-IsSynced expired object m = ground arith

  pub acquired-IsSynced : (dev ino : ℕ) (m : Message) → IsSynced (acquired dev ino t m g).0
  unfolding acquired
  acquired-IsSynced dev ino m = ground arith

  pub release_demand-IsSynced : (job : String) → IsSynced (release_demand t job g).0
  unfolding release_demand
  release_demand-IsSynced job = ground arith

  pub verify_readiness-IsSynced :
      (nvml : Option String) (qwen : Bool) → IsSynced (verify_readiness nvml qwen t g).0
  unfolding verify_readiness
  verify_readiness-IsSynced none qwen = ground arith
  verify_readiness-IsSynced (some e) qwen = ground arith

  pub recover_finish-IsSynced : (env : RecoveryEnv) → IsSynced (recover_finish env t g).0
  unfolding recover_finish
  recover_finish-IsSynced env = ground arith

  pub begin_demand-IsSynced : (m : Message) → IsSynced (begin_demand fresh t m g).0
  unfolding begin_demand
  begin_demand-IsSynced m = ground arith

  pub advance-IsSynced : (cycle : ℕ) (env : Env) (pc : Pc) → IsSynced (advance cycle env t pc g).0
  unfolding advance
  advance-IsSynced cycle env launching = ground arith
  advance-IsSynced cycle env pc = ground arith

pub release_request-IsSynced : (ticket t : ℕ) (g : Gate) → IsSynced (release_request ticket t g)
unfolding release_request
release_request-IsSynced ticket t g = ground arith

pub load-IsSynced : (fresh t : ℕ) (d : Disk) → IsSynced (load fresh t d)
unfolding load
load-IsSynced fresh t Disk.absent = ground arith
load-IsSynced fresh t Disk.unreadable = ground arith
load-IsSynced fresh t (saved d) = ground arith
