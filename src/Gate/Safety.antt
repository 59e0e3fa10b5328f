-- ===== src/Gate/Safety.antt =====
-- The external workload and the requests exclude one another: the invariant and its lemmas for each
-- function of the gate.
use recursive_harness_builde.Prelude.{
  ℕ, ◌≡◌, String, erase, nat_eq, Option, none, some, Bool, true, false, ◌||◌, [], arith, string_eq,
  is_some,
}
use recursive_harness_builde.Gate.State.{
  Gate, GateState, Config, Mode, Phase, is_waiting_external, is_external_hold, Disk,
}
use recursive_harness_builde.Gate.Requests.{admit, admit_woken, release_request}
use recursive_harness_builde.Gate.Holding.{some_holding-begun, some_holding-remove}
use recursive_harness_builde.Gate.Demands.{
  Message, some_holding, needs_recovery, begin_demand, acquired, acquired_round, release_demand,
  verify_readiness,
}
use recursive_harness_builde.Gate.Coordinator.{
  Env, Pc, launching, finding, asking, unloading_backend, awaiting_backend, verifying_none,
  unloading, exiting, releasing, advance, is_unloading, stale, attempted,
}
use recursive_harness_builde.Gate.Recovery.{RecoveryEnv, recover_finish, load}

-- The phases in which an external workload may take the GPU, or holds it.
abbrev pub external : Phase → Bool
external p = is_waiting_external p || is_external_hold p

-- The gate is closed to requests, in some cycle.
abbrev pub IsClosed : GateState → Type 0
IsClosed s = (s.mode ≡ Mode.draining) × (is_some s.cycle_id ≡ true)

-- The gate is closed to requests, and none is in flight.
abbrev pub IsDrained : GateState → Type 0
IsDrained s = (s.active_ids ≡ []) × (s.mode ≡ Mode.draining) × (is_some s.cycle_id ≡ true)

pub record IsExclusive (s : GateState) : Type 0 where
  pub drained : external s.phase ≡ true → IsDrained s
  pub running : s.coordinator_running ≡ true → IsClosed s
  pub held : some_holding s.demands ≡ true → IsDrained s
  pub cycled : s.mode ≡ Mode.draining → needs_recovery s ≡ false → is_some s.cycle_id ≡ true

module _ (cfg : Config) (ticket t : ℕ) (g : Gate) where
  pub admit-IsExclusive : IsExclusive g.state → IsExclusive (admit cfg ticket t g).0.state
  unfolding admit
  admit-IsExclusive i = ground arith

  pub admit_woken-IsExclusive :
      IsExclusive g.state → IsExclusive (admit_woken cfg ticket t g).0.state
  unfolding admit_woken
  admit_woken-IsExclusive i = ground arith

pub release_request-IsExclusive :
    (ticket t : ℕ) (g : Gate) → IsExclusive g.state → IsExclusive (release_request ticket t g).state
unfolding release_request erase
release_request-IsExclusive ticket t g i = ground arith

pub begin_demand-IsExclusive :
    (fresh t : ℕ) (m : Message) (g : Gate)
    → IsExclusive g.state
    → IsExclusive (begin_demand fresh t m g).0.state
unfolding begin_demand
begin_demand-IsExclusive fresh t m g i =
    ground (arith, some_holding-begun fresh t m g.state.demands)

pub acquired_round-IsExclusive :
    (expired : Bool) (object t : ℕ) (m : Message) (g : Gate)
    → IsExclusive g.state
    → IsExclusive (acquired_round expired object t m g).0.state
unfolding acquired_round
acquired_round-IsExclusive expired object t m g i = ground arith

pub acquired-IsExclusive :
    (dev ino t : ℕ) (m : Message) (g : Gate)
    → IsExclusive g.state
    → IsExclusive (acquired dev ino t m g).0.state
unfolding acquired
acquired-IsExclusive dev ino t m g i = ground arith

pub release_demand-IsExclusive :
    (t : ℕ) (job : String) (g : Gate)
    → IsExclusive g.state
    → IsExclusive (release_demand t job g).0.state
unfolding release_demand
release_demand-IsExclusive t job g i = ground (arith, some_holding-remove job g.state.demands)

-- The last section of a release, where the gate has stayed drained since the first.
pub verify_readiness-IsExclusive :
    (nvml : Option String) (qwen : Bool) (t : ℕ) (g : Gate)
    → IsDrained g.state
    → g.state.coordinator_running ≡ false
    → IsExclusive g.state
    → IsExclusive (verify_readiness nvml qwen t g).0.state
unfolding verify_readiness
verify_readiness-IsExclusive none qwen t g d r i = ground arith
verify_readiness-IsExclusive (some e) qwen t g d r i = ground arith

pub recover_finish-IsExclusive :
    (env : RecoveryEnv) (t : ℕ) (g : Gate)
    → IsExclusive g.state
    → IsExclusive (recover_finish env t g).0.state
unfolding recover_finish
recover_finish-IsExclusive env t g i = ground arith

pub load-IsExclusive : (fresh t : ℕ) (d : Disk) → IsExclusive (load fresh t d).state
unfolding load
load-IsExclusive fresh t Disk.absent = ground arith
load-IsExclusive fresh t Disk.unreadable = ground arith
load-IsExclusive fresh t (Disk.saved d) = ground arith

-- A coordinator at such a place has seen the gate drained, and it stays so.
abbrev pub past_drain : Pc → Bool
past_drain finding = true
past_drain asking = true
past_drain unloading_backend = true
past_drain awaiting_backend = true
past_drain verifying_none = true
past_drain (unloading _) = true
past_drain (exiting _) = true
past_drain (releasing _) = true
past_drain _ = false

abbrev pub IsPlaced : Pc → GateState → Type 0
IsPlaced pc s = past_drain pc ≡ true → s.active_ids ≡ []

pub advance-IsExclusive :
    (cycle : ℕ) (env : Env) (t : ℕ) (pc : Pc) (g : Gate)
    → IsClosed g.state
    → IsPlaced pc g.state
    → IsExclusive g.state
    → IsExclusive (advance cycle env t pc g).0.state
unfolding advance
advance-IsExclusive cycle env t launching g c p i = ground arith
advance-IsExclusive cycle env t pc g c p i = ground arith

pub advance-IsPlaced :
    (cycle : ℕ) (env : Env) (t : ℕ) (pc : Pc) (g : Gate)
    → IsPlaced pc g.state
    → IsPlaced (advance cycle env t pc g).1 (advance cycle env t pc g).0.state
unfolding advance
advance-IsPlaced cycle env t launching g p = ground arith
advance-IsPlaced cycle env t pc g p = ground arith

pub advance-unloading :
    (cycle : ℕ) (env : Env) (t : ℕ) (pc : Pc) (g : Gate)
    → IsPlaced pc g.state
    → is_unloading (advance cycle env t pc g).1 ≡ true
    → (g.state.active_ids ≡ [])
      × (stale cycle g.state ≡ false)
      × (attempted g.state ≡ false)
      × (attempted (advance cycle env t pc g).0.state ≡ true)
unfolding advance
advance-unloading cycle env t launching g p h = ground arith
advance-unloading cycle env t pc g p h = ground arith
