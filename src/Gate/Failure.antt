-- ===== src/Gate/Failure.antt =====
-- deploy/llm-inference/gate.py: failing closed, and the way back.
use recursive_harness_builde.Prelude.{
  ℕ, ◌≡◌, refl, String, Option, none, some, Bool, true, false, [], ◌⊎◌, ◌↔◌, ◌≢◌, inl, inr, arith,
  not, Option-cases,
}
use recursive_harness_builde.Gate.State.{Gate, GateState, Config, Mode, Sample, saved, snapshot}
use recursive_harness_builde.Gate.Requests.{admit, admit_woken, release_request}
use recursive_harness_builde.Gate.Demands.{
  Message, done, needs_recovery, begin_demand, acquired, acquired_round, release_demand,
  verify_readiness,
}
use recursive_harness_builde.Gate.Coordinator.{Env, Pc, launching, advance, Answer}
use recursive_harness_builde.Gate.Recovery.{
  RecoveryEnv, reopened, recover_finish, recover, try_auto_recover, load,
}
use recursive_harness_builde.Gate.Threads.{World, Step, Reach}
use recursive_harness_builde.Gate.Sync.{IsSynced}
use recursive_harness_builde.Gate.Reachable.{Reach-IsSynced}

abbrev pub IsLatched : GateState → Type 0
IsLatched s = (s.mode ≡ Mode.draining) × (needs_recovery s ≡ true)

module _ (t : ℕ) (g : Gate) (l : IsLatched g.state) where
  admit-IsLatched : (cfg : Config) (ticket : ℕ) → IsLatched (admit cfg ticket t g).0.state
  unfolding admit
  admit-IsLatched cfg ticket = ground arith

  admit_woken-IsLatched :
      (cfg : Config) (ticket : ℕ) → IsLatched (admit_woken cfg ticket t g).0.state
  unfolding admit_woken
  admit_woken-IsLatched cfg ticket = ground arith

  release_request-IsLatched : (ticket : ℕ) → IsLatched (release_request ticket t g).state
  unfolding release_request
  release_request-IsLatched ticket = ground arith

  begin_demand-IsLatched : (fresh : ℕ) (m : Message) → IsLatched (begin_demand fresh t m g).0.state
  unfolding begin_demand
  begin_demand-IsLatched fresh m = ground arith

  acquired_round-IsLatched :
      (expired : Bool) (object : ℕ) (m : Message)
      → IsLatched (acquired_round expired object t m g).0.state
  unfolding acquired_round
  acquired_round-IsLatched expired object m = ground arith

  acquired-IsLatched : (dev ino : ℕ) (m : Message) → IsLatched (acquired dev ino t m g).0.state
  unfolding acquired
  acquired-IsLatched dev ino m = ground arith

  release_demand-IsLatched : (job : String) → IsLatched (release_demand t job g).0.state
  unfolding release_demand
  release_demand-IsLatched job = ground arith

  verify_readiness-IsLatched :
      (nvml : Option String) (qwen : Bool) → IsLatched (verify_readiness nvml qwen t g).0.state
  unfolding verify_readiness
  verify_readiness-IsLatched none qwen = ground arith
  verify_readiness-IsLatched (some e) qwen = ground arith

  advance-IsLatched :
      (cycle : ℕ) (env : Env) (pc : Pc) → IsLatched (advance cycle env t pc g).0.state
  unfolding advance
  advance-IsLatched cycle env launching = ground arith
  advance-IsLatched cycle env pc = ground arith

load-IsLatched :
    (fresh t : ℕ) (g : Gate)
    → IsSynced g
    → IsLatched g.state
    → IsLatched (load fresh t g.disk).state
unfolding load
load-IsLatched fresh t g y l = rw y (ground arith)

module _ (cfg : Config) {timely : Bool} where
  -- The step is the last section of `recover`.
  abbrev pub IsRecovery : {w w' : World} → Step cfg timely w w' → Type 0
  IsRecovery (Step.admit_first w t) = ⊥
  IsRecovery (Step.admit_again w ticket t h) = ⊥
  IsRecovery (Step.request_done w ticket t h) = ⊥
  IsRecovery (Step.begin w t m) = ⊥
  IsRecovery (Step.acquire_first w dev ino t m) = ⊥
  IsRecovery (Step.acquire_again w expired t p) = ⊥
  IsRecovery (Step.release w t job) = ⊥
  IsRecovery (Step.verify w nvml qwen t p u) = ⊥
  IsRecovery (Step.coordinate w env t p) = ⊥
  IsRecovery (Step.recover_first w h) = ⊥
  IsRecovery (Step.recover_last w env t h) = Unit
  IsRecovery (Step.restart w t) = ⊥

  -- In every run, a gate that is closed with an error or with `recovery_required` set stays so,
  -- through a restart too: only a step that is the last section of `recover` can change that.
  pub IsLatched-stays :
      {w w' : World}
      → Reach cfg timely w
      → (st : Step cfg timely w w') → IsLatched w.gate.state
      → IsLatched w'.gate.state
        ⊎ (IsRecovery st
            × (env : RecoveryEnv) × (t : ℕ) × (w'.gate ≡ (recover_finish env t w.gate).0))
  IsLatched-stays r (Step.admit_first w t) l = inl (admit-IsLatched t w.gate l cfg w.fresh)
  IsLatched-stays r (Step.admit_again w ticket t h) l =
      inl (admit_woken-IsLatched t w.gate l cfg ticket)
  IsLatched-stays r (Step.request_done w ticket t h) l =
      inl (release_request-IsLatched t w.gate l ticket)
  IsLatched-stays r (Step.begin w t m) l = inl (begin_demand-IsLatched t w.gate l w.fresh m)
  IsLatched-stays r (Step.acquire_first w dev ino t m) l =
      inl (acquired-IsLatched t w.gate l dev ino m)
  IsLatched-stays r (Step.acquire_again w expired t {a = a} p) l =
      inl (acquired_round-IsLatched t w.gate l expired a.object a.message)
  IsLatched-stays r (Step.release w t job) l = inl (release_demand-IsLatched t w.gate l job)
  IsLatched-stays r (Step.verify w nvml qwen t p u) l =
      inl (verify_readiness-IsLatched t w.gate l nvml qwen)
  IsLatched-stays r (Step.coordinate w env t {c = c} p) l =
      inl (advance-IsLatched t w.gate l c.cycle env c.pc)
  IsLatched-stays r (Step.recover_first w h) l = inl l
  IsLatched-stays r (Step.recover_last w env t h) l = inr (tt, env, t, refl)
  IsLatched-stays r (Step.restart w t) l =
      inl (load-IsLatched w.fresh t w.gate (Reach-IsSynced cfg r) l)

-- In a closed gate with an error or with `recovery_required` set, a call that begins or acquires a
-- demand is refused, and changes nothing.
latched_refuses :
    (fresh dev ino t : ℕ) (m : Message) (g : Gate)
    → IsLatched g.state
    → ((begin_demand fresh t m g).0 ≡ g)
      × ((begin_demand fresh t m g).1 ≢ done)
      × ((acquired dev ino t m g).0 ≡ g)
      × ((acquired dev ino t m g).1 ≢ done)
unfolding begin_demand acquired
latched_refuses fresh dev ino t m g l = ground arith

abbrev pub Idle : GateState → Type 0
Idle s = (s.active_ids ≡ []) × (s.queue ≡ []) × (s.demands ≡ []) × (s.coordinator_running ≡ false)

abbrev pub reads_idle : Answer Sample → Bool
reads_idle (Answer.ok s) = not s.is_processing
reads_idle (Answer.failed _) = false

-- `recover` opens the gate only from a closed one that awaits recovery and has no work of any kind,
-- with a clean NVML report, and either no Qwen process and a free lease, or one Qwen process that is
-- the same at all three looks, is idle at both samples and holds the GPU lease.
pub recover-reopened :
    (env : RecoveryEnv) (t : ℕ) (g : Gate)
    → (recover env t g).1 ≡ reopened
    → (g.state.mode ≡ Mode.draining)
      × (g.state.recovery_required ≡ true)
      × Idle g.state
      × (env.clean_nvml ≡ none)
      × (((env.qwen ≡ none) × (env.qwen_last ≡ none) × (env.lease_free ≡ true))
          ⊎ ((p : ℕ × ℕ) × (env.qwen ≡ some p)
              × (env.qwen_again ≡ some p)
              × (env.qwen_last ≡ some p)
              × (reads_idle env.first ≡ true)
              × (reads_idle env.second ≡ true)
              × (env.lease_free ≡ false)))
unfolding recover
recover-reopened env t g h = elim (Option-cases env.qwen) [
  | inl e ↦ (
    ground arith,
    ground arith,
    (ground arith, ground arith, ground arith, ground arith),
    ground arith,
    inl (e, ground arith, ground arith),
  )
  | inr ((pid, port), e) ↦ (
    ground arith,
    ground arith,
    (ground arith, ground arith, ground arith, ground arith),
    ground arith,
    inr ((pid, port), e, ground arith, ground arith, ground arith, ground arith, ground arith),
  )
]

-- Where `recover` does not open the gate it changes nothing, and the automatic attempt does exactly
-- what `recover` does.
recover-declined :
    (env : RecoveryEnv) (t : ℕ) (g : Gate)
    → ((recover env t g).1 ≢ reopened → (recover env t g).0 ≡ g)
      × ((try_auto_recover env t g).0 ≡ (recover env t g).0)
unfolding recover try_auto_recover
recover-declined env t g = (λ h. ground arith, ground arith)

-- A restart finds the gate open exactly where it was open with no request in flight or waiting and
-- no demand; any other state comes back awaiting recovery. Its demands come back as they were.
pub load-opened :
    (fresh t : ℕ) (s : GateState)
    → (((load fresh t (saved (snapshot s))).state.mode ≡ Mode.opened)
        ↔ ((s.mode ≡ Mode.opened) × (s.demands ≡ []) × (s.active_ids ≡ []) × (s.queue ≡ [])))
      × ((load fresh t (saved (snapshot s))).state.mode ≡ Mode.draining
          → (load fresh t (saved (snapshot s))).state.recovery_required ≡ true)
      × ((load fresh t (saved (snapshot s))).state.demands ≡ s.demands)
unfolding load
load-opened fresh t s = ((λ h. ground arith, λ h. ground arith), λ h. ground arith, ground arith)
