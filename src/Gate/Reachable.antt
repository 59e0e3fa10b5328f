-- ===== src/Gate/Reachable.antt =====
-- deploy/llm-inference/gate.py: what holds of the gate whenever a thread takes its lock.
use recursive_harness_builde.Prelude.{
  Pick, picked, ℕ, ◌≡◌, refl, Bool, true, false, List, [], length, inl, inr, arith, ◌⊎◌,
  if◌then◌else◌,
}
use recursive_harness_builde.Gate.State.{Config, Mode, Disk}
use recursive_harness_builde.Gate.Demands.{some_holding}
use recursive_harness_builde.Gate.Coordinator.{Env, advance, stale, attempted, is_unloading}
use recursive_harness_builde.Gate.Recovery.{load}
use recursive_harness_builde.Gate.Threads.{World, Coordinator, Step, Reach, start, next}
use recursive_harness_builde.Gate.Safety.{
  external, admit-IsExclusive, admit_woken-IsExclusive, release_request-IsExclusive,
  acquired_round-IsExclusive, acquired-IsExclusive, recover_finish-IsExclusive, advance-unloading,
}
use recursive_harness_builde.Gate.Evolves.{
  admit-Leaves, admit_woken-Leaves, release_request-Leaves, acquired_round-Leaves, acquired-Leaves,
  recover_finish-Leaves,
}
use recursive_harness_builde.Gate.Sync.{
  IsSynced, admit-IsSynced, admit_woken-IsSynced, release_request-IsSynced, begin_demand-IsSynced,
  acquired-IsSynced, acquired_round-IsSynced, release_demand-IsSynced, verify_readiness-IsSynced,
  advance-IsSynced, recover_finish-IsSynced, load-IsSynced,
}
use recursive_harness_builde.Gate.Exclusion.{IsSafe, IsWell, keep, later}
use recursive_harness_builde.Gate.Interleaving.{
  begin-IsSafe, coordinate-IsSafe, release-IsSafe, verify-IsSafe, restart-IsSafe,
}

abbrev SafeWorld : World → Type 0
SafeWorld w = IsSafe w.gate.state w.coordinators w.verifiers w.fresh

record IsInvariant (w : World) : Type 0 where
  safe : SafeWorld w
  synced : IsSynced w.gate

module _ (cfg : Config) where
  Step-IsSynced :
      {timely : Bool} {w w' : World} → Step cfg timely w w' → IsSynced w.gate → IsSynced w'.gate
  Step-IsSynced (Step.admit_first w t) y = admit-IsSynced 0 t w.gate y cfg w.fresh
  Step-IsSynced (Step.admit_again w ticket t h) y = admit_woken-IsSynced 0 t w.gate y cfg ticket
  Step-IsSynced (Step.request_done w ticket t h) y = release_request-IsSynced ticket t w.gate
  Step-IsSynced (Step.begin w t m) y = begin_demand-IsSynced w.fresh t w.gate y m
  Step-IsSynced (Step.acquire_first w dev ino t m) y = acquired-IsSynced 0 t w.gate y dev ino m
  Step-IsSynced (Step.acquire_again w expired t {a = a} p) y =
      acquired_round-IsSynced 0 t w.gate y expired a.object a.message
  Step-IsSynced (Step.release w t job) y = release_demand-IsSynced 0 t w.gate y job
  Step-IsSynced (Step.verify w nvml qwen t p u) y = verify_readiness-IsSynced 0 t w.gate y nvml qwen
  Step-IsSynced (Step.coordinate w env t {c = c} p) y =
      advance-IsSynced 0 t w.gate y c.cycle env c.pc
  Step-IsSynced (Step.recover_first w h) y = y
  Step-IsSynced (Step.recover_last w env t h) y = recover_finish-IsSynced 0 t w.gate y env
  Step-IsSynced (Step.restart w t) y = load-IsSynced w.fresh t w.gate.disk

  Step-SafeWorld :
      {w w' : World} → Step cfg true w w' → IsSynced w.gate → SafeWorld w → SafeWorld w'
  Step-SafeWorld (Step.admit_first w t) y i = later _ w.coordinators w.verifiers w.fresh (
      keep w.gate.state _ w.coordinators w.verifiers w.fresh
        (admit-Leaves w.fresh t w.gate cfg w.fresh)
        (admit-IsExclusive cfg w.fresh t w.gate i.exclusive) i)
  Step-SafeWorld (Step.admit_again w ticket t h) y i =
      keep w.gate.state _ w.coordinators w.verifiers w.fresh
        (admit_woken-Leaves w.fresh t w.gate cfg ticket)
        (admit_woken-IsExclusive cfg ticket t w.gate i.exclusive) i
  Step-SafeWorld (Step.request_done w ticket t h) y i =
      keep w.gate.state _ w.coordinators w.verifiers w.fresh
        (release_request-Leaves w.fresh t w.gate ticket)
        (release_request-IsExclusive ticket t w.gate i.exclusive) i
  Step-SafeWorld (Step.begin w t m) y i =
      begin-IsSafe t m w.gate w.coordinators w.verifiers w.fresh i
  Step-SafeWorld (Step.acquire_first w dev ino t m) y i =
      keep w.gate.state _ w.coordinators w.verifiers w.fresh
        (acquired-Leaves w.fresh t w.gate dev ino m)
        (acquired-IsExclusive dev ino t m w.gate i.exclusive) i
  Step-SafeWorld (Step.acquire_again w expired t {a = a} p) y i =
      keep w.gate.state _ w.coordinators w.verifiers w.fresh
        (acquired_round-Leaves w.fresh t w.gate expired a.object a.message)
        (acquired_round-IsExclusive expired a.object t a.message w.gate i.exclusive) i
  Step-SafeWorld (Step.release w t job) y i =
      release-IsSafe t job w.gate w.coordinators w.verifiers w.fresh i
  Step-SafeWorld (Step.verify w nvml qwen t {v = v} {rest = rest} p u) y i =
      verify-IsSafe nvml qwen t v w.gate w.coordinators w.verifiers rest w.fresh p (u refl) i
  Step-SafeWorld (Step.coordinate w env t {c = c} {rest = rest} p) y i =
      coordinate-IsSafe env t c w.gate w.coordinators rest w.verifiers w.fresh p i
  Step-SafeWorld (Step.recover_first w h) y i = i
  Step-SafeWorld (Step.recover_last w env t h) y i =
      keep w.gate.state _ w.coordinators w.verifiers w.fresh
        (recover_finish-Leaves w.fresh t w.gate env)
        (recover_finish-IsExclusive env t w.gate i.exclusive) i
  Step-SafeWorld (Step.restart w t) y i = restart-IsSafe t w.gate w.fresh y i.below

  start-SafeWorld : (t : ℕ) → IsSafe (load 0 t Disk.absent).state [] [] 1
  unfolding load
  start-SafeWorld t = record {
    exclusive = ground arith;
    sole = refl;
    well = tt;
    checks = tt;
    below = tt;
  }

  Reach-IsInvariant : {w : World} → Reach cfg true w → IsInvariant w
  Reach-IsInvariant (start t) = record {
    safe = start-SafeWorld t;
    synced = load-IsSynced 0 t Disk.absent;
  }
  Reach-IsInvariant (next r st) =
      let i = Reach-IsInvariant r in
      record { safe = Step-SafeWorld st i.synced i.safe; synced = Step-IsSynced st i.synced }

  -- In every run in which each NVML check of a release is undisturbed: while the gate lets an
  -- external workload take the GPU, or one holds it, by the phase or by a demand's own phase, no
  -- request is in flight and no new one is let in.
  pub handoff-excludes-requests :
      {w : World}
      → Reach cfg true w
      → (external w.gate.state.phase ≡ true) ⊎ (some_holding w.gate.state.demands ≡ true)
      → (w.gate.state.active_ids ≡ []) × (w.gate.state.mode ≡ Mode.draining)
  handoff-excludes-requests r (inl e) =
      let d = (Reach-IsInvariant r).safe.exclusive.drained e in (d.0, d.1)
  handoff-excludes-requests r (inr e) =
      let d = (Reach-IsInvariant r).safe.exclusive.held e in (d.0, d.1)

  -- In every run in which each NVML check of a release is undisturbed, a coordinator begins an unload,
  -- of the Qwen process or of the backend's model, only in a closed gate with no request in flight,
  -- for a demand of its own cycle, and where no unload was attempted before in the cycle; the attempt
  -- is then on record.
  pub unload_guard :
      {w : World} {c : Coordinator} {rest : List Coordinator} (env : Env) (t : ℕ)
      → Reach cfg true w
      → Pick c w.coordinators rest
      → is_unloading (advance c.cycle env t c.pc w.gate).1 ≡ true
      → (w.gate.state.active_ids ≡ [])
        × (stale c.cycle w.gate.state ≡ false)
        × (attempted w.gate.state ≡ false)
        × (attempted (advance c.cycle env t c.pc w.gate).0.state ≡ true)
  unload_guard {w} {c} env t r p h =
      advance-unloading c.cycle env t c.pc w.gate
        (picked (IsWell w.gate.state) p (Reach-IsInvariant r).safe.well).0.0 h

  -- In every run in which each NVML check of a release is undisturbed there is one coordinator thread
  -- while `coordinator_running` is set, and none otherwise.
  pub sole_coordinator :
      {w : World}
      → Reach cfg true w
      → length w.coordinators ≡ (if w.gate.state.coordinator_running then 1 else 0)
  sole_coordinator {w} r = ground (arith, (Reach-IsInvariant r).safe.sole)

  -- In every run, the writes of the file succeeding as `persist` takes them to, the file on disk is the
  -- snapshot of the state in memory.
  pub Reach-IsSynced : {timely : Bool} {w : World} → Reach cfg timely w → IsSynced w.gate
  Reach-IsSynced (start t) = load-IsSynced 0 t Disk.absent
  Reach-IsSynced (next r st) = Step-IsSynced st (Reach-IsSynced r)
