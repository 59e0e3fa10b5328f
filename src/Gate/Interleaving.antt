-- ===== src/Gate/Interleaving.antt =====
-- deploy/llm-inference/gate.py: the invariant of the gate in every interleaving of its threads.
use recursive_harness_builde.Prelude.{
  Pick, picked, length-Pick, All-map, ℕ, suc, ◌≡◌, refl, sym, ap, ◌∙◌, String, Option, none, some,
  Bool, true, false, not, List, [], All, length, arith, inl, inr, Bool-cases, is_some,
}
use recursive_harness_builde.Gate.State.{Gate, GateState, Disk, saved, snapshot}
use recursive_harness_builde.Gate.Demands.{Message, begin_demand, release_demand, verify_readiness}
use recursive_harness_builde.Gate.Coordinator.{Env, Pc, launching, is_ended, advance, ended}
use recursive_harness_builde.Gate.Recovery.{load, interrupted}
use recursive_harness_builde.Gate.Sync.{IsSynced}
use recursive_harness_builde.Gate.Threads.{Coordinator, launched, parked, verifying, IsUndisturbed}
use recursive_harness_builde.Gate.Safety.{
  IsDrained, IsPlaced, advance-IsExclusive, advance-IsPlaced, begin_demand-IsExclusive,
  release_demand-IsExclusive, verify_readiness-IsExclusive, load-IsExclusive,
}
use recursive_harness_builde.Gate.Evolves.{
  running-advance, begin_demand-Evolves, begin_demand-starts, begin_demand-keeps,
  release_demand-Leaves, release_demand-verifies, verify_readiness-Leaves, advance-Evolves,
  advance-IsSettled,
}
use recursive_harness_builde.Gate.Exclusion.{
  IsSafe, IsWell, IsVerifier, IsBelow, count, keep, IsVerifier-Evolves, IsBelow-Evolves,
  IsWell-Evolves,
}

-- The list of coordinators after `begin_demand`.
launched-sole :
    (start : Bool) (o : Option ℕ) (s s' : GateState) (cs : List Coordinator)
    → (start ≡ true
        → (s.coordinator_running ≡ false) × (s'.coordinator_running ≡ true) × (is_some o ≡ true))
    → (start ≡ false → s'.coordinator_running ≡ s.coordinator_running)
    → length cs ≡ count s.coordinator_running
    → length (launched start o cs) ≡ count s'.coordinator_running
launched-sole false o s s' cs up same n = rw (same refl) n
launched-sole true none s s' cs up same n = cc ((up refl).2)
launched-sole true (some c) s s' cs up same n =
    let u = up refl in rw u.1 (ap suc (n ∙ ap count u.0))

launched-IsWell :
    (start : Bool) (o : Option ℕ) (s : GateState) (cs : List Coordinator)
    → All (IsWell s) cs
    → All (IsWell s) (launched start o cs)
launched-IsWell false o s cs h = h
launched-IsWell true none s cs h = h
launched-IsWell true (some c) s cs h = ((λ p. cc p, refl), h)

-- A coordinator that has not ended goes back into the list.
parked-sole :
    (c : Coordinator) (pc : Pc) (cs : List Coordinator) (s : GateState)
    → length cs ≡ 0
    → s.coordinator_running ≡ not (is_ended pc)
    → length (parked c pc cs) ≡ count s.coordinator_running
parked-sole c launching cs s n r = rw r (ap suc n)
parked-sole c ended cs s n r = rw r n
parked-sole c pc cs s n r = rw r (ap suc n)

parked-IsWell :
    (c : Coordinator) (pc : Pc) (cs : List Coordinator) (s : GateState)
    → IsPlaced pc s
    → All (IsWell s) cs
    → All (IsWell s) (parked c pc cs)
parked-IsWell c launching cs s p h = ((p, refl), h)
parked-IsWell c ended cs s p h = h
parked-IsWell c pc cs s p h = ((p, refl), h)

pub begin-IsSafe :
    (t : ℕ) (m : Message) (g : Gate) (cs : List Coordinator) (vs : List (Option ℕ)) (fresh : ℕ)
    → IsSafe g.state cs vs fresh
    → IsSafe
        (begin_demand fresh t m g).0.state
        (launched (begin_demand fresh t m g).2 (begin_demand fresh t m g).0.state.cycle_id cs)
        vs
        (suc fresh)
begin-IsSafe t m g cs vs fresh i =
    let e = begin_demand-Evolves fresh t g m in
    let (g', _, start) = begin_demand fresh t m g in
    record {
      exclusive = begin_demand-IsExclusive fresh t m g i.exclusive;
      sole =
          launched-sole start g'.state.cycle_id g.state g'.state cs
            (begin_demand-starts fresh t g m i.exclusive) (begin_demand-keeps fresh t g m) i.sole;
      well =
          launched-IsWell start g'.state.cycle_id g'.state cs
            (IsWell-Evolves fresh g.state g'.state e i.exclusive.running cs i.sole i.well);
      checks =
          All-map _ _ (IsVerifier-Evolves fresh (suc fresh) g.state g'.state e (inr refl)) vs
            i.checks;
      below = IsBelow-Evolves fresh (suc fresh) g.state g'.state e (inr refl) i.below;
    }

pub coordinate-IsSafe :
    (env : Env) (t : ℕ) (c : Coordinator) (g : Gate) (cs rest : List Coordinator)
    (vs : List (Option ℕ)) (fresh : ℕ)
    → Pick c cs rest
    → IsSafe g.state cs vs fresh
    → IsSafe
        (advance c.cycle env t c.pc g).0.state
        (parked c (advance c.cycle env t c.pc g).1 rest)
        vs
        fresh
coordinate-IsSafe env t c g cs rest vs fresh p i =
    let (k, ks) = picked (IsWell g.state) p i.well in
    let n : suc (length rest) ≡ count g.state.coordinator_running = sym (length-Pick p) ∙ i.sole in
    let up : g.state.coordinator_running ≡ true = ground arith in
    let none_left : length rest ≡ 0 = ground arith in
    let (g', pc) = advance c.cycle env t c.pc g in
    let e = advance-Evolves fresh t g c.cycle env c.pc in
    record {
      exclusive = advance-IsExclusive c.cycle env t c.pc g (i.exclusive.running up) k.0 i.exclusive;
      sole =
          parked-sole c pc rest g'.state none_left
            (running-advance fresh t g c.cycle env c.pc k.1 up);
      well =
          parked-IsWell c pc rest g'.state (advance-IsPlaced c.cycle env t c.pc g k.0)
            (picked (IsWell g'.state) p
              (IsWell-Evolves fresh g.state g'.state e i.exclusive.running cs i.sole i.well)).1;
      checks =
          All-map _ _ (IsVerifier-Evolves fresh fresh g.state g'.state e (inl refl)) vs i.checks;
      below =
          IsBelow-Evolves fresh fresh g.state g'.state e
            (inl (refl, advance-IsSettled fresh t g c.cycle env c.pc)) i.below;
    }

restored-IsBelow :
    (fresh : ℕ) (o : Option ℕ)
    → IsBelow o fresh
    → IsBelow (some (elim o [ none ↦ fresh | some c ↦ c ])) (suc fresh)
restored-IsBelow fresh none b = omega arith
restored-IsBelow fresh (some c) b = omega arith

load_running : (fresh t : ℕ) (d : Disk) → 0 ≡ count (load fresh t d).state.coordinator_running
unfolding load
load_running fresh t Disk.absent = refl
load_running fresh t Disk.unreadable = refl
load_running fresh t (saved d) = ground arith

verifying-checks :
    (verify : Bool) (fresh : ℕ) (s : GateState) (vs : List (Option ℕ))
    → (verify ≡ true → IsDrained s)
    → IsBelow s.cycle_id fresh
    → All (IsVerifier fresh s) vs
    → All (IsVerifier fresh s) (verifying verify s.cycle_id vs)
verifying-checks false fresh s vs d b h = h
verifying-checks true fresh s vs d b h = (((d refl).2, b, λ _. d refl), h)

pub release-IsSafe :
    (t : ℕ) (job : String) (g : Gate) (cs : List Coordinator) (vs : List (Option ℕ)) (fresh : ℕ)
    → IsSafe g.state cs vs fresh
    → IsSafe
        (release_demand t job g).0.state
        cs
        (verifying (release_demand t job g).2 (release_demand t job g).0.state.cycle_id vs)
        fresh
release-IsSafe t job g cs vs fresh i =
    let (g', _, verify) = release_demand t job g in
    let j =
      keep g.state g'.state cs vs fresh (release_demand-Leaves fresh t g job)
        (release_demand-IsExclusive t job g i.exclusive) i in
    record {
      exclusive = j.exclusive;
      sole = j.sole;
      well = j.well;
      checks =
          verifying-checks verify fresh g'.state vs
            (release_demand-verifies fresh t g job i.exclusive) j.below j.checks;
      below = j.below;
    }

pub verify-IsSafe :
    (nvml : Option String) (qwen : Bool) (t : ℕ) (v : Option ℕ) (g : Gate) (cs : List Coordinator)
    (vs rest : List (Option ℕ)) (fresh : ℕ)
    → Pick v vs rest
    → IsUndisturbed v g.state
    → IsSafe g.state cs vs fresh
    → IsSafe (verify_readiness nvml qwen t g).0.state cs rest fresh
verify-IsSafe nvml qwen t v g cs vs rest fresh p u i =
    let (k, ks) = picked (IsVerifier fresh g.state) p i.checks in
    keep g.state (verify_readiness nvml qwen t g).0.state cs rest fresh
      (verify_readiness-Leaves fresh t g nvml qwen)
      (verify_readiness-IsExclusive nvml qwen t g (k.2 u.0) u.1 i.exclusive)
      (record {
        exclusive = i.exclusive;
        sole = i.sole;
        well = i.well;
        checks = ks;
        below = i.below;
      })

load-IsBelow :
    (fresh t : ℕ) (s : GateState)
    → IsBelow s.cycle_id fresh
    → IsBelow (load fresh t (saved (snapshot s))).state.cycle_id (suc fresh)
unfolding load
load-IsBelow fresh t s b = elim (Bool-cases (interrupted (snapshot s))) [
  | inl e ↦ rw (e, load) (restored-IsBelow fresh s.cycle_id b)
  | inr e ↦ rw (e, load) tt
]

-- A restart finds no thread, and a gate that the file describes.
pub restart-IsSafe :
    (t : ℕ) (g : Gate) (fresh : ℕ)
    → IsSynced g
    → IsBelow g.state.cycle_id fresh
    → IsSafe (load fresh t g.disk).state [] [] (suc fresh)
restart-IsSafe t g fresh y b = record {
  exclusive = load-IsExclusive fresh t g.disk;
  sole = load_running fresh t g.disk;
  well = tt;
  checks = tt;
  below = rw y (load-IsBelow fresh t g.state b);
}
