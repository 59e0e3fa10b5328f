-- ===== src/Gate/Turns.antt =====
-- deploy/llm-inference/gate.py: in which order `admit` lets requests in.
use recursive_harness_builde.Prelude.{
  ℕ, suc, ◌<◌, ◌≡◌, String, Option, none, some, Bool, List, [], ◌∷◌, ◌++◌, All, erase, ◌⊎◌, inl,
  inr, nat_eq, arith, subst, ◌∙◌,
}
use recursive_harness_builde.Gate.Queues.{
  IsAscending, IsAhead, IsInTurn, All-erase, All-snoc, IsAscending-erase, IsAscending-snoc,
  IsAhead-none, IsAhead-tail, IsAhead-erase, IsAhead-snoc, later_turn, to_lists,
}
use recursive_harness_builde.Gate.State.{Gate, GateState, Config, Disk, saved}
use recursive_harness_builde.Gate.Requests.{admit, admit_woken, release_request}
use recursive_harness_builde.Gate.Demands.{
  Message, begin_demand, acquired, acquired_round, release_demand, verify_readiness,
}
use recursive_harness_builde.Gate.Coordinator.{Env, Pc, launching, advance}
use recursive_harness_builde.Gate.Recovery.{RecoveryEnv, recover_finish, load}
use recursive_harness_builde.Gate.Threads.{World, Step, Reach, start, next}

abbrev HasTurns : ℕ → GateState → Type 0
HasTurns fresh s = IsInTurn fresh s.active_ids s.queue

-- A new call changes nothing, enters where nobody waits, or joins the end of the queue.
admit-cases :
    (cfg : Config) (ticket t : ℕ) (g : Gate)
    → (let s = (admit cfg ticket t g).0.state in
        ((s.active_ids ≡ g.state.active_ids) × (s.queue ≡ g.state.queue))
        ⊎ ((g.state.queue ≡ [])
            × (s.active_ids ≡ ticket ∷ g.state.active_ids)
            × (s.queue ≡ g.state.queue))
        ⊎ ((s.active_ids ≡ g.state.active_ids) × (s.queue ≡ g.state.queue ++ ticket ∷ [])))
unfolding admit
admit-cases cfg ticket t g = ground arith

admit_woken-cases :
    (cfg : Config) (ticket t : ℕ) (g : Gate)
    → (let s = (admit_woken cfg ticket t g).0.state in
        ((s.active_ids ≡ g.state.active_ids) × (s.queue ≡ g.state.queue))
        ⊎ ((ts : List ℕ) × (g.state.queue ≡ ticket ∷ ts)
            × (s.active_ids ≡ ticket ∷ g.state.active_ids)
            × (s.queue ≡ ts))
        ⊎ ((s.active_ids ≡ g.state.active_ids) × (s.queue ≡ erase ticket g.state.queue)))
unfolding admit_woken
admit_woken-cases cfg ticket t g = ground arith

admit-HasTurns :
    (cfg : Config) (fresh t : ℕ) (g : Gate)
    → HasTurns fresh g.state
    → HasTurns (suc fresh) (admit cfg fresh t g).0.state
admit-HasTurns cfg fresh t g (a, o, f, q) =
    let active = g.state.active_ids in
    let queue = g.state.queue in
    let s = (admit cfg fresh t g).0.state in
    let later = later_turn fresh active queue (a, o, f, q) in
    elim (admit-cases cfg fresh t g) [
      | inl (ea, eq) ↦ to_lists (suc fresh) active queue s.active_ids s.queue ea eq later
      | inr (inl (e, ea, eq)) ↦
          to_lists (suc fresh) (fresh ∷ active) [] s.active_ids s.queue ea (eq ∙ e)
            ((tt, IsAhead-none active), tt, (omega arith, later.2), tt)
      | inr (inr (ea, eq)) ↦
          to_lists (suc fresh) active (queue ++ fresh ∷ []) s.active_ids s.queue ea eq (
            IsAhead-snoc fresh active queue a f,
            IsAscending-snoc queue fresh o q,
            later.2,
            All-snoc (λ b. b < suc fresh) queue fresh later.3 (omega arith),
          )
    ]

admit_woken-HasTurns :
    (cfg : Config) (fresh ticket t : ℕ) (g : Gate)
    → HasTurns fresh g.state
    → HasTurns fresh (admit_woken cfg ticket t g).0.state
admit_woken-HasTurns cfg fresh ticket t g (a, o, f, q) =
    let active = g.state.active_ids in
    let queue = g.state.queue in
    let s = (admit_woken cfg ticket t g).0.state in
    elim (admit_woken-cases cfg ticket t g) [
      | inl (ea, eq) ↦ to_lists fresh active queue s.active_ids s.queue ea eq (a, o, f, q)
      | inr (inl (ts, e, ea, eq)) ↦
          let (a', o', f', q') = subst (λ x. IsInTurn fresh active x) e (a, o, f, q) in
          to_lists fresh (ticket ∷ active) ts s.active_ids s.queue ea eq
            ((o'.0, IsAhead-tail ticket active ts a'), o'.1, (q'.0, f'), q'.1)
      | inr (inr (ea, eq)) ↦ to_lists fresh active (erase ticket queue) s.active_ids s.queue ea eq (
        IsAhead-erase ticket active queue a,
        IsAscending-erase ticket queue o,
        f,
        All-erase (λ b. b < fresh) ticket queue q,
      )
    ]

release_request-HasTurns :
    (fresh ticket t : ℕ) (g : Gate)
    → HasTurns fresh g.state
    → HasTurns fresh (release_request ticket t g).state
unfolding release_request
release_request-HasTurns fresh ticket t g (a, o, f, q) = (
  All-erase (λ a. All (λ b. a < b) g.state.queue) ticket g.state.active_ids a,
  o,
  All-erase (λ a. a < fresh) ticket g.state.active_ids f,
  q,
)

-- The other sections touch neither list.
abbrev IsSameLists : GateState → GateState → Type 0
IsSameLists s s' = (s'.active_ids ≡ s.active_ids) × (s'.queue ≡ s.queue)

same-HasTurns :
    (fresh : ℕ) (s s' : GateState) → IsSameLists s s' → HasTurns fresh s → HasTurns fresh s'
same-HasTurns fresh s s' (ea, eq) = to_lists fresh s.active_ids s.queue s'.active_ids s'.queue ea eq

module _ (t : ℕ) (g : Gate) where
  begin_demand-IsSameLists :
      (fresh : ℕ) (m : Message) → IsSameLists g.state (begin_demand fresh t m g).0.state
  unfolding begin_demand
  begin_demand-IsSameLists fresh m = ground arith

  acquired_round-IsSameLists :
      (expired : Bool) (object : ℕ) (m : Message)
      → IsSameLists g.state (acquired_round expired object t m g).0.state
  unfolding acquired_round
  acquired_round-IsSameLists expired object m = ground arith

  acquired-IsSameLists :
      (dev ino : ℕ) (m : Message) → IsSameLists g.state (acquired dev ino t m g).0.state
  unfolding acquired
  acquired-IsSameLists dev ino m = ground arith

  release_demand-IsSameLists : (job : String) → IsSameLists g.state (release_demand t job g).0.state
  unfolding release_demand
  release_demand-IsSameLists job = ground arith

  verify_readiness-IsSameLists :
      (nvml : Option String) (qwen : Bool)
      → IsSameLists g.state (verify_readiness nvml qwen t g).0.state
  unfolding verify_readiness
  verify_readiness-IsSameLists none qwen = ground arith
  verify_readiness-IsSameLists (some e) qwen = ground arith

  recover_finish-IsSameLists :
      (env : RecoveryEnv) → IsSameLists g.state (recover_finish env t g).0.state
  unfolding recover_finish
  recover_finish-IsSameLists env = ground arith

  advance-IsSameLists :
      (cycle : ℕ) (env : Env) (pc : Pc) → IsSameLists g.state (advance cycle env t pc g).0.state
  unfolding advance
  advance-IsSameLists cycle env launching = ground arith
  advance-IsSameLists cycle env pc = ground arith

load-empty :
    (fresh t : ℕ) (d : Disk)
    → ((load fresh t d).state.active_ids ≡ []) × ((load fresh t d).state.queue ≡ [])
unfolding load
load-empty fresh t Disk.absent = ground arith
load-empty fresh t Disk.unreadable = ground arith
load-empty fresh t (saved d) = ground arith

load-HasTurns : (later fresh t : ℕ) (d : Disk) → HasTurns later (load fresh t d).state
load-HasTurns later fresh t d =
    let (ea, eq) = load-empty fresh t d in
    to_lists later [] [] (load fresh t d).state.active_ids (load fresh t d).state.queue ea eq
      (tt, tt, tt, tt)

module _ (cfg : Config) {timely : Bool} where
  Step-HasTurns :
      {w w' : World}
      → Step cfg timely w w'
      → HasTurns w.fresh w.gate.state
      → HasTurns w'.fresh w'.gate.state
  Step-HasTurns (Step.admit_first w t) i = admit-HasTurns cfg w.fresh t w.gate i
  Step-HasTurns (Step.admit_again w ticket t h) i =
      admit_woken-HasTurns cfg w.fresh ticket t w.gate i
  Step-HasTurns (Step.request_done w ticket t h) i =
      release_request-HasTurns w.fresh ticket t w.gate i
  Step-HasTurns (Step.begin w t m) i =
      same-HasTurns (suc w.fresh) w.gate.state (begin_demand w.fresh t m w.gate).0.state
        (begin_demand-IsSameLists t w.gate w.fresh m)
        (later_turn w.fresh w.gate.state.active_ids w.gate.state.queue i)
  Step-HasTurns (Step.acquire_first w dev ino t m) i =
      same-HasTurns w.fresh w.gate.state (acquired dev ino t m w.gate).0.state
        (acquired-IsSameLists t w.gate dev ino m) i
  Step-HasTurns (Step.acquire_again w expired t {a = a} p) i =
      same-HasTurns w.fresh w.gate.state
        (acquired_round expired a.object t a.message w.gate).0.state
        (acquired_round-IsSameLists t w.gate expired a.object a.message) i
  Step-HasTurns (Step.release w t job) i =
      same-HasTurns w.fresh w.gate.state (release_demand t job w.gate).0.state
        (release_demand-IsSameLists t w.gate job) i
  Step-HasTurns (Step.verify w nvml qwen t p u) i =
      same-HasTurns w.fresh w.gate.state (verify_readiness nvml qwen t w.gate).0.state
        (verify_readiness-IsSameLists t w.gate nvml qwen) i
  Step-HasTurns (Step.coordinate w env t {c = c} p) i =
      same-HasTurns w.fresh w.gate.state (advance c.cycle env t c.pc w.gate).0.state
        (advance-IsSameLists t w.gate c.cycle env c.pc) i
  Step-HasTurns (Step.recover_first w h) i = i
  Step-HasTurns (Step.recover_last w env t h) i =
      same-HasTurns w.fresh w.gate.state (recover_finish env t w.gate).0.state
        (recover_finish-IsSameLists t w.gate env) i
  Step-HasTurns (Step.restart w t) i = load-HasTurns (suc w.fresh) w.fresh t w.gate.disk

  Reach-HasTurns : {w : World} → Reach cfg timely w → HasTurns w.fresh w.gate.state
  Reach-HasTurns (start t) = load-HasTurns 1 0 t Disk.absent
  Reach-HasTurns (next r st) = Step-HasTurns st (Reach-HasTurns r)

  -- No request overtakes another: in every run each request in flight came before every one that
  -- waits, and those that wait stand in the order in which they came.
  pub no_overtaking :
      {w : World}
      → Reach cfg timely w
      → IsAhead w.gate.state.active_ids w.gate.state.queue × IsAscending w.gate.state.queue
  no_overtaking r = let (a, o, _, _) = Reach-HasTurns r in (a, o)
