-- ===== src/Gate/Admission.antt =====
-- deploy/llm-inference/gate.py: the limits of admission, and when a request gets in.
use recursive_harness_builde.Prelude.{
  ℕ, ◌≤◌, ◌<◌, ◌≡◌, String, Option, none, some, Bool, List, [], ◌∷◌, length, length-append,
  length-erase-le, nat_eq, arith,
}
use recursive_harness_builde.Gate.State.{
  Gate, GateState, Config, Mode, Disk, saved, concurrency_limit,
}
use recursive_harness_builde.Gate.Requests.{admitted, admit, admit_woken, release_request}
use recursive_harness_builde.Gate.Demands.{
  Message, begin_demand, acquired, acquired_round, release_demand, verify_readiness,
}
use recursive_harness_builde.Gate.Coordinator.{Env, Pc, launching, advance}
use recursive_harness_builde.Gate.Recovery.{RecoveryEnv, recover_finish, load}
use recursive_harness_builde.Gate.Threads.{World, Step, Reach, start, next}

pub record IsWithin (cfg : Config) (s : GateState) : Type 0 where
  pub active : length s.active_ids ≤ concurrency_limit cfg
  pub queued : length s.queue ≤ cfg.queue_limit

module _ (cfg : Config) (t : ℕ) (g : Gate) (i : IsWithin cfg g.state) where
  admit-IsWithin : (ticket : ℕ) → IsWithin cfg (admit cfg ticket t g).0.state
  unfolding admit
  admit-IsWithin ticket = ground (arith, length-append g.state.queue (ticket ∷ []))

  admit_woken-IsWithin : (ticket : ℕ) → IsWithin cfg (admit_woken cfg ticket t g).0.state
  unfolding admit_woken
  admit_woken-IsWithin ticket = ground (arith, length-erase-le ticket g.state.queue)

  release_request-IsWithin : (ticket : ℕ) → IsWithin cfg (release_request ticket t g).state
  unfolding release_request
  release_request-IsWithin ticket = ground (arith, length-erase-le ticket g.state.active_ids)

  begin_demand-IsWithin :
      (fresh : ℕ) (m : Message) → IsWithin cfg (begin_demand fresh t m g).0.state
  unfolding begin_demand
  begin_demand-IsWithin fresh m = ground arith

  acquired_round-IsWithin :
      (expired : Bool) (object : ℕ) (m : Message)
      → IsWithin cfg (acquired_round expired object t m g).0.state
  unfolding acquired_round
  acquired_round-IsWithin expired object m = ground arith

  acquired-IsWithin : (dev ino : ℕ) (m : Message) → IsWithin cfg (acquired dev ino t m g).0.state
  unfolding acquired
  acquired-IsWithin dev ino m = ground arith

  release_demand-IsWithin : (job : String) → IsWithin cfg (release_demand t job g).0.state
  unfolding release_demand
  release_demand-IsWithin job = ground arith

  verify_readiness-IsWithin :
      (nvml : Option String) (qwen : Bool) → IsWithin cfg (verify_readiness nvml qwen t g).0.state
  unfolding verify_readiness
  verify_readiness-IsWithin none qwen = ground arith
  verify_readiness-IsWithin (some e) qwen = ground arith

  recover_finish-IsWithin : (env : RecoveryEnv) → IsWithin cfg (recover_finish env t g).0.state
  unfolding recover_finish
  recover_finish-IsWithin env = ground arith

  advance-IsWithin :
      (cycle : ℕ) (env : Env) (pc : Pc) → IsWithin cfg (advance cycle env t pc g).0.state
  unfolding advance
  advance-IsWithin cycle env launching = ground arith
  advance-IsWithin cycle env pc = ground arith

load-IsWithin : (cfg : Config) (fresh t : ℕ) (d : Disk) → IsWithin cfg (load fresh t d).state
unfolding load
load-IsWithin cfg fresh t Disk.absent = ground arith
load-IsWithin cfg fresh t Disk.unreadable = ground arith
load-IsWithin cfg fresh t (saved d) = ground arith

module _ (cfg : Config) where
  Step-IsWithin :
      {timely : Bool} {w w' : World}
      → Step cfg timely w w'
      → IsWithin cfg w.gate.state
      → IsWithin cfg w'.gate.state
  Step-IsWithin (Step.admit_first w t) i = admit-IsWithin cfg t w.gate i w.fresh
  Step-IsWithin (Step.admit_again w ticket t h) i = admit_woken-IsWithin cfg t w.gate i ticket
  Step-IsWithin (Step.request_done w ticket t h) i = release_request-IsWithin cfg t w.gate i ticket
  Step-IsWithin (Step.begin w t m) i = begin_demand-IsWithin cfg t w.gate i w.fresh m
  Step-IsWithin (Step.acquire_first w dev ino t m) i = acquired-IsWithin cfg t w.gate i dev ino m
  Step-IsWithin (Step.acquire_again w expired t {a = a} p) i =
      acquired_round-IsWithin cfg t w.gate i expired a.object a.message
  Step-IsWithin (Step.release w t job) i = release_demand-IsWithin cfg t w.gate i job
  Step-IsWithin (Step.verify w nvml qwen t p u) i =
      verify_readiness-IsWithin cfg t w.gate i nvml qwen
  Step-IsWithin (Step.coordinate w env t {c = c} p) i =
      advance-IsWithin cfg t w.gate i c.cycle env c.pc
  Step-IsWithin (Step.recover_first w h) i = i
  Step-IsWithin (Step.recover_last w env t h) i = recover_finish-IsWithin cfg t w.gate i env
  Step-IsWithin (Step.restart w t) i = load-IsWithin cfg w.fresh t w.gate.disk

  -- In every run at most `concurrency_limit` requests are in flight and at most `queue_limit` wait.
  pub Reach-IsWithin :
      {timely : Bool} {w : World}
      → Reach cfg timely w
      → (length w.gate.state.active_ids ≤ concurrency_limit cfg)
        × (length w.gate.state.queue ≤ cfg.queue_limit)
  Reach-IsWithin r = let i = within r in (i.active, i.queued)
    where
      within : {timely : Bool} {w : World} → Reach cfg timely w → IsWithin cfg w.gate.state
      within (start t) = load-IsWithin cfg 0 t Disk.absent
      within (next r st) = Step-IsWithin st (within r)

-- Where the gate is open and has room, a new request enters at once if nobody waits, and the head of
-- the queue enters when it is woken.
admit_progress :
    (cfg : Config) (ticket t : ℕ) (g : Gate)
    → g.state.mode ≡ Mode.opened
    → length g.state.active_ids < concurrency_limit cfg
    → (g.state.queue ≡ [] → (admit cfg ticket t g).1 ≡ admitted)
      × ((ts : List ℕ) → g.state.queue ≡ ticket ∷ ts → (admit_woken cfg ticket t g).1 ≡ admitted)
unfolding admit admit_woken
admit_progress cfg ticket t g o room = (λ h. ground arith, λ ts h. ground arith)
