-- ===== src/Gate/Exclusion.antt =====
-- deploy/llm-inference/gate.py: in every interleaving the GPU handoff and the requests exclude one
-- another.
use recursive_harness_builde.Prelude.{
  All-map, ℕ, suc, ◌≡◌, refl, ◌<◌, Option, none, some, Bool, true, false, List, [], ◌∷◌, All,
  length, arith, ◌⊎◌, inl, inr, is_some,
}
use recursive_harness_builde.Gate.State.{GateState}
use recursive_harness_builde.Gate.Coordinator.{is_ended}
use recursive_harness_builde.Gate.Threads.{Coordinator}
use recursive_harness_builde.Gate.Safety.{IsDrained, IsClosed, IsExclusive, IsPlaced}
use recursive_harness_builde.Gate.Evolves.{Evolves, Leaves, IsSettled}

-- A coordinator thread that has not ended, and that has seen the gate drained if it is past that.
abbrev pub IsWell : GateState → Coordinator → Type 0
IsWell s c = IsPlaced c.pc s × (is_ended c.pc ≡ false)

abbrev pub IsBelow : Option ℕ → ℕ → Type 0
IsBelow none n = Unit
IsBelow (some c) n = c < n

-- A release's check that began in the cycle `v`, in a gate that was drained.
abbrev pub IsVerifier : ℕ → GateState → Option ℕ → Type 0
IsVerifier fresh s v = (is_some v ≡ true) × IsBelow v fresh × (v ≡ s.cycle_id → IsDrained s)

abbrev pub count : Bool → ℕ
count true = 1
count false = 0

pub record IsSafe (s : GateState) (cs : List Coordinator) (vs : List (Option ℕ)) (fresh : ℕ)
    : Type 0 where
  pub exclusive : IsExclusive s
  pub sole : length cs ≡ count s.coordinator_running
  pub well : All (IsWell s) cs
  pub checks : All (IsVerifier fresh s) vs
  pub below : IsBelow s.cycle_id fresh

pub IsBelow-suc : (o : Option ℕ) (n : ℕ) → IsBelow o n → IsBelow o (suc n)
IsBelow-suc none n h = tt
IsBelow-suc (some c) n h = omega arith

-- A check goes on being one across any section.
pub IsVerifier-Evolves :
    (fresh fresh' : ℕ) (s s' : GateState) (e : Evolves fresh s s')
    → (fresh' ≡ fresh) ⊎ (fresh' ≡ suc fresh)
    → (v : Option ℕ) → IsVerifier fresh s v
    → IsVerifier fresh' s' v
IsVerifier-Evolves fresh fresh' s s' e f none h = cc (h.0)
IsVerifier-Evolves fresh fresh' s s' e f (some c) h =
    (refl, omega arith, λ same. ground (arith, e.cycle, h.2, e.drained))

pub IsBelow-Evolves :
    (fresh fresh' : ℕ) (s s' : GateState)
    → Evolves fresh s s'
    → (fresh' ≡ fresh) × IsSettled s s' ⊎ (fresh' ≡ suc fresh)
    → IsBelow s.cycle_id fresh
    → IsBelow s'.cycle_id fresh'
IsBelow-Evolves fresh fresh' s s' e (inl (f, inl same)) b = rw (same, f) b
IsBelow-Evolves fresh fresh' s s' e (inl (f, inr gone)) b = rw gone tt
IsBelow-Evolves fresh fresh' s s' e (inr f) b = elim e.cycle [
  | inl same ↦ rw (same, f) (IsBelow-suc s.cycle_id fresh b)
  | inr (inl gone) ↦ rw gone tt
  | inr (inr new) ↦ rw (new, f) (omega arith)
]

pub IsWell-Evolves :
    (fresh : ℕ) (s s' : GateState)
    → Evolves fresh s s'
    → (s.coordinator_running ≡ true → IsClosed s)
    → (cs : List Coordinator) → length cs ≡ count s.coordinator_running
    → All (IsWell s) cs
    → All (IsWell s') cs
IsWell-Evolves fresh s s' e r [] n h = tt
IsWell-Evolves fresh s s' e r (c ∷ cs) n h =
    All-map (IsWell s) (IsWell s') (λ d k. (λ p. e.idle closed.0 (k.0 p), k.1)) (c ∷ cs) h
  where
    up : s.coordinator_running ≡ true
    up = ground arith

    closed : IsClosed s
    closed = r up

module _ (s s' : GateState) (cs : List Coordinator) (vs : List (Option ℕ)) (fresh : ℕ) where
  pub keep : Leaves fresh s s' → IsExclusive s' → IsSafe s cs vs fresh → IsSafe s' cs vs fresh
  keep l x i = record {
    exclusive = x;
    sole = rw l.running i.sole;
    well = IsWell-Evolves fresh s s' l.evolves i.exclusive.running cs i.sole i.well;
    checks = All-map _ _ (IsVerifier-Evolves fresh fresh s s' l.evolves (inl refl)) vs i.checks;
    below = IsBelow-Evolves fresh fresh s s' l.evolves (inl (refl, l.settled)) i.below;
  }

pub later :
    (s : GateState) (cs : List Coordinator) (vs : List (Option ℕ)) (fresh : ℕ)
    → IsSafe s cs vs fresh
    → IsSafe s cs vs (suc fresh)
later s cs vs fresh i = record {
  exclusive = i.exclusive;
  sole = i.sole;
  well = i.well;
  checks = All-map _ _ (λ v k. (k.0, IsBelow-suc v fresh k.1, k.2)) vs i.checks;
  below = IsBelow-suc s.cycle_id fresh i.below;
}
