-- ===== src/Gate/Threads.antt =====
-- The threads of deploy/llm-inference/gate.py, interleaved at their critical sections: a request
-- thread is its ticket, and the control threads that are inside a call stand in lists.
use recursive_harness_builde.Prelude.{
  Pick, ℕ, suc, ◌≡◌, String, Option, none, some, Bool, true, false, List, [], ◌∷◌, contains, lookup,
  nat_eq, string_eq,
}
use recursive_harness_builde.Gate.State.{Gate, GateState, Config, Disk, Demand}
use recursive_harness_builde.Gate.Requests.{admit, admit_woken, release_request}
use recursive_harness_builde.Gate.Demands.{
  Message, Outcome, waits, begin_demand, acquired, acquired_round, release_demand, verify_readiness,
}
use recursive_harness_builde.Gate.Coordinator.{Env, Pc, launching, ended, advance}
use recursive_harness_builde.Gate.Recovery.{RecoveryEnv, recover_check, recover_finish, load}

pub record Coordinator : Type 0 where
  pub cycle : ℕ
  pub pc : Pc

-- An `acquired` call that waits.
pub record Acquirer : Type 0 where
  pub object : ℕ
  pub message : Message

pub record World : Type 0 where
  pub gate : Gate
  pub coordinators : List Coordinator
  pub acquirers : List Acquirer
  pub verifiers : List (Option ℕ)  -- the cycle in which each NVML check of a release began
  pub recoverers : ℕ  -- `recover` calls past their first section
  pub fresh : ℕ  -- the next id that nothing carries

-- `_launch_coordinator(snapshot["cycle_id"])`, where `begin_demand` asks for it.
abbrev pub launched : Bool → Option ℕ → List Coordinator → List Coordinator
launched true (some c) cs = record { cycle = c; pc = launching } ∷ cs
launched _ _ cs = cs

abbrev pub parked : Coordinator → Pc → List Coordinator → List Coordinator
parked c ended cs = cs
parked c pc cs = record c { pc = pc } ∷ cs

abbrev pub verifying : Bool → Option ℕ → List (Option ℕ) → List (Option ℕ)
verifying false cycle vs = vs
verifying true cycle vs = cycle ∷ vs

-- The demand object that `acquired` reads at its start.
abbrev pub object_of : Option Demand → ℕ
object_of none = 0
object_of (some d) = d.object

abbrev pub acquiring : Outcome → Acquirer → List Acquirer → List Acquirer
acquiring waits a as' = a ∷ as'
acquiring _ a as' = as'

-- A release's NVML check ends in the cycle in which it began, and while no coordinator runs.
abbrev pub IsUndisturbed : Option ℕ → GateState → Type 0
IsUndisturbed cycle s = (cycle ≡ s.cycle_id) × (s.coordinator_running ≡ false)

module _ (cfg : Config) where
  -- One critical section of one thread. With `timely` each NVML check of a release is undisturbed;
  -- the source does not see to that.
  pub data Step (timely : Bool) : World → World → Type 0 where
    admit_first :
        (w : World) (t : ℕ)
        → Step timely w (record w { gate = (admit cfg w.fresh t w.gate).0; fresh = suc w.fresh })
    admit_again :
        (w : World) (ticket t : ℕ)
        → contains w.gate.state.queue ticket ≡ true
        → Step timely w (record w { gate = (admit_woken cfg ticket t w.gate).0 })
    request_done :
        (w : World) (ticket t : ℕ)
        → contains w.gate.state.active_ids ticket ≡ true
        → Step timely w (record w { gate = release_request ticket t w.gate })
    begin :
        (w : World) (t : ℕ) (m : Message)
        → Step timely w (
            let (g, _, start) = begin_demand w.fresh t m w.gate in
            record w {
              gate = g;
              coordinators = launched start g.state.cycle_id w.coordinators;
              fresh = suc w.fresh;
            })
    acquire_first :
        (w : World) (dev ino t : ℕ) (m : Message)
        → Step timely w (
            let (g, r) = acquired dev ino t m w.gate in
            record w {
              gate = g;
              acquirers =
                  acquiring r
                    (record {
                      object = object_of (lookup m.job_id w.gate.state.demands);
                      message = m;
                    })
                    w.acquirers;
            })
    acquire_again :
        (w : World) (expired : Bool) (t : ℕ) {a : Acquirer} {rest : List Acquirer}
        → Pick a w.acquirers rest
        → Step timely w (
            let (g, r) = acquired_round expired a.object t a.message w.gate in
            record w { gate = g; acquirers = acquiring r a rest })
    release :
        (w : World) (t : ℕ) (job : String)
        → Step timely w (
            let (g, _, verify) = release_demand t job w.gate in
            record w { gate = g; verifiers = verifying verify g.state.cycle_id w.verifiers })
    verify :
        (w : World) (nvml : Option String) (qwen : Bool) (t : ℕ) {v : Option ℕ}
        {rest : List (Option ℕ)}
        → Pick v w.verifiers rest
        → (timely ≡ true → IsUndisturbed v w.gate.state)
        → Step timely w
            (record w { gate = (verify_readiness nvml qwen t w.gate).0; verifiers = rest })
    coordinate :
        (w : World) (env : Env) (t : ℕ) {c : Coordinator} {rest : List Coordinator}
        → Pick c w.coordinators rest
        → Step timely w (
            let (g, pc) = advance c.cycle env t c.pc w.gate in
            record w { gate = g; coordinators = parked c pc rest })
    recover_first :
        (w : World)
        → recover_check w.gate ≡ none
        → Step timely w (record w { recoverers = suc w.recoverers })
    recover_last :
        (w : World) (env : RecoveryEnv) (t : ℕ) {n : ℕ}
        → w.recoverers ≡ suc n
        → Step timely w (record w { gate = (recover_finish env t w.gate).0; recoverers = n })
    restart :
        (w : World) (t : ℕ)
        → Step timely w (record {
          gate = load w.fresh t w.gate.disk;
          coordinators = [];
          acquirers = [];
          verifiers = [];
          recoverers = 0;
          fresh = suc w.fresh;
        })

  pub data Reach (timely : Bool) : World → Type 0 where
    start :
        (t : ℕ)
        → Reach timely (record {
          gate = load 0 t Disk.absent;
          coordinators = [];
          acquirers = [];
          verifiers = [];
          recoverers = 0;
          fresh = 1;
        })
    next : {w w' : World} → Reach timely w → Step timely w w' → Reach timely w'
