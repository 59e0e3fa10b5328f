-- ===== src/Gate/Queues.antt =====
-- deploy/llm-inference/gate.py: the two lists of `GateState`, the requests in flight and those that wait.
-- A ticket is the number of the call, so that an earlier call has a smaller one.
use recursive_harness_builde.Prelude.{
  ℕ, suc, ◌<◌, ◌≡◌, List, [], ◌∷◌, ◌++◌, All, All-map, erase, inl, inr, nat_eq, arith, Bool-cases,
  ◌==◌, subst, sym,
}

abbrev pub IsAscending : List ℕ → Type 0
IsAscending [] = Unit
IsAscending (a ∷ q) = All (λ b. a < b) q × IsAscending q

-- Every request in flight came before every one that waits.
abbrev pub IsAhead : List ℕ → List ℕ → Type 0
IsAhead active queue = All (λ a. All (λ b. a < b) queue) active

abbrev pub IsInTurn : ℕ → List ℕ → List ℕ → Type 0
IsInTurn fresh active queue =
    IsAhead active queue
    × IsAscending queue
    × All (λ a. a < fresh) active
    × All (λ b. b < fresh) queue

pub All-erase : (P : ℕ → Type 0) (x : ℕ) (us : List ℕ) → All P us → All P (erase x us)
unfolding erase
All-erase P x [] h = tt
All-erase P x (u ∷ us) h = elim (Bool-cases (u == x)) [
  | inl e ↦ rw e h.1
  | inr e ↦ rw e (h.0, All-erase P x us h.1)
]

pub All-snoc : (P : ℕ → Type 0) (us : List ℕ) (x : ℕ) → All P us → P x → All P (us ++ x ∷ [])
All-snoc P [] x h k = (k, tt)
All-snoc P (u ∷ us) x h k = (h.0, All-snoc P us x h.1 k)

pub IsAscending-erase : (x : ℕ) (q : List ℕ) → IsAscending q → IsAscending (erase x q)
unfolding erase
IsAscending-erase x [] h = tt
IsAscending-erase x (u ∷ q) h = elim (Bool-cases (u == x)) [
  | inl e ↦ rw e h.1
  | inr e ↦ rw e (All-erase (λ b. u < b) x q h.0, IsAscending-erase x q h.1)
]

pub IsAscending-snoc :
    (q : List ℕ) (x : ℕ) → IsAscending q → All (λ b. b < x) q → IsAscending (q ++ x ∷ [])
IsAscending-snoc [] x h k = (tt, tt)
IsAscending-snoc (u ∷ q) x h k = (All-snoc (λ b. u < b) q x h.0 k.0, IsAscending-snoc q x h.1 k.1)

pub IsAhead-none : (active : List ℕ) → IsAhead active []
IsAhead-none [] = tt
IsAhead-none (a ∷ active) = (tt, IsAhead-none active)

pub IsAhead-tail : (x : ℕ) (active q : List ℕ) → IsAhead active (x ∷ q) → IsAhead active q
IsAhead-tail x [] q h = tt
IsAhead-tail x (a ∷ active) q h = (h.0.1, IsAhead-tail x active q h.1)

pub IsAhead-erase : (x : ℕ) (active q : List ℕ) → IsAhead active q → IsAhead active (erase x q)
IsAhead-erase x [] q h = tt
IsAhead-erase x (a ∷ active) q h = (All-erase (λ b. a < b) x q h.0, IsAhead-erase x active q h.1)

pub IsAhead-snoc :
    (x : ℕ) (active q : List ℕ)
    → IsAhead active q
    → All (λ a. a < x) active
    → IsAhead active (q ++ x ∷ [])
IsAhead-snoc x [] q h k = tt
IsAhead-snoc x (a ∷ active) q h k =
    (All-snoc (λ b. a < b) q x h.0 k.0, IsAhead-snoc x active q h.1 k.1)

pub later_turn :
    (fresh : ℕ) (active queue : List ℕ)
    → IsInTurn fresh active queue
    → IsInTurn (suc fresh) active queue
later_turn fresh active queue (a, o, f, q) =
    let up : (us : List ℕ) → All (λ u. u < fresh) us → All (λ u. u < suc fresh) us =
      λ us. All-map (λ u. u < fresh) (λ u. u < suc fresh) (λ u h. omega (arith, h)) us in
    (a, o, up active f, up queue q)

pub to_lists :
    (fresh : ℕ) (a q a' q' : List ℕ) → a' ≡ a → q' ≡ q → IsInTurn fresh a q → IsInTurn fresh a' q'
to_lists fresh a q a' q' e f h =
    subst (λ x. IsInTurn fresh x q') (sym e) (subst (λ x. IsInTurn fresh a x) (sym f) h)
