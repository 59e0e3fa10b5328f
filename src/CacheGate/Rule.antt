-- ===== src/CacheGate/Rule.antt =====
-- src/obs_agent/cache_gate.py: `rerun_verdict` decides the rerun rule of its comment (a) to (c).
use recursive_harness_builde.Prelude.{
  ℕ, zero, suc, ◌+◌, ◌≤◌, ◌≡◌, refl, ap, String, Bool, true, false, List, [], ◌∷◌, ◌++◌, map, leb,
  arith, ◌↔◌, if◌then◌else◌, ◌∙◌, sym, subst,
}
use native.Mathlib.Nat.{add-zero, zero-add}
use native.Mathlib.Numerals.{add-one, one-add}
use recursive_harness_builde.CacheGate.Reports.{Report, Status, has_no_verdict}
use recursive_harness_builde.CacheGate.Rerun.{
  Outcome, silent, passed, failed, outcome, needed, rerun_loop, rerun_verdict,
}

abbrev pub replicate : ℕ → Outcome → List Outcome
replicate zero o = []
replicate (suc n) o = o ∷ replicate n o

-- The reruns that are a verdict, oldest first.
abbrev pub heard : List Outcome → List Outcome
heard [] = []
heard (silent ∷ os) = heard os
heard (passed ∷ os) = passed ∷ heard os
heard (failed known ∷ os) = failed known ∷ heard os

-- How many passes the reruns end with: after a full run without a verdict one where no rerun failed,
-- and two in any other case.
abbrev pub passes_wanted : Bool → ℕ → ℕ
passes_wanted true zero = 1
passes_wanted true (suc k) = 2
passes_wanted false k = 2

judge : ℕ → ℕ → ℕ → List Outcome → Bool
judge fails rerun_fails passes [] = leb (needed fails) passes
judge fails rerun_fails passes (silent ∷ os) = judge fails rerun_fails passes os
judge fails rerun_fails passes (passed ∷ os) = judge fails rerun_fails (suc passes) os
judge fails rerun_fails (suc passes) (failed known ∷ os) = false
judge fails (suc n) zero (failed known ∷ os) = false
judge fails zero zero (failed true ∷ os) = judge (suc fails) 1 zero os
judge fails zero zero (failed false ∷ os) = false

module _ (provider scenario : String) where
  step_judge :
      (fails rerun_fails passes : ℕ) (o : Outcome) (r : Report) (rs : List Report)
      (os : List Outcome)
      → outcome provider scenario r ≡ o
      → ((f g p : ℕ) → rerun_loop provider scenario f g p rs ≡ judge f g p os)
      → rerun_loop provider scenario fails rerun_fails passes (r ∷ rs)
        ≡ judge fails rerun_fails passes (o ∷ os)
  unfolding rerun_loop judge
  step_judge f g p silent r rs os e ih = rw (e, rerun_loop) (ih f g p)
  step_judge f g p passed r rs os e ih = rw (e, rerun_loop) (ih f g (suc p))
  step_judge f zero (suc p) (failed true) r rs os e ih = rw (e, rerun_loop) (ground arith)
  step_judge f zero (suc p) (failed false) r rs os e ih = rw (e, rerun_loop) (ground arith)
  step_judge f (suc g) (suc p) (failed true) r rs os e ih = rw (e, rerun_loop) (ground arith)
  step_judge f (suc g) (suc p) (failed false) r rs os e ih = rw (e, rerun_loop) (ground arith)
  step_judge f zero zero (failed true) r rs os e ih = rw (e, rerun_loop) (ih (suc f) 1 zero)
  step_judge f zero zero (failed false) r rs os e ih = rw (e, rerun_loop)
  step_judge f (suc g) zero (failed true) r rs os e ih = rw (e, rerun_loop) (ground arith)
  step_judge f (suc g) zero (failed false) r rs os e ih = rw (e, rerun_loop)

  loop-judge :
      (rs : List Report) (fails rerun_fails passes : ℕ)
      → rerun_loop provider scenario fails rerun_fails passes rs
        ≡ judge fails rerun_fails passes (map (outcome provider scenario) rs)
  loop-judge [] f g p = unfold rerun_loop judge in refl
  loop-judge (r ∷ rs) f g p =
      step_judge f g p (outcome provider scenario r) r rs (map (outcome provider scenario) rs) refl
        (loop-judge rs)

passes_only :
    (fails rerun_fails passes : ℕ) (os : List Outcome)
    → judge fails rerun_fails (suc passes) os ≡ true
    → (m : ℕ) × (heard os ≡ replicate m passed) × (needed fails ≤ suc passes + m)
unfolding judge
passes_only f g p [] h = (0, refl, ground arith)
passes_only f g p (silent ∷ os) h = passes_only f g p os h
passes_only f g p (passed ∷ os) h =
    let (m, e, n) = passes_only f g (suc p) os h in (suc m, ap (◌∷◌ passed) e, omega (arith, n))
passes_only f g p (failed known ∷ os) h = cc

passes_enough :
    (fails rerun_fails passes m : ℕ) (os : List Outcome)
    → heard os ≡ replicate m passed
    → needed fails ≤ passes + m
    → judge fails rerun_fails passes os ≡ true
unfolding judge
passes_enough f g p zero [] e n = ground arith
passes_enough f g p (suc m) [] e n = cc
passes_enough f g p m (silent ∷ os) e n = passes_enough f g p m os e n
passes_enough f g p zero (passed ∷ os) e n = cc
passes_enough f g p (suc m) (passed ∷ os) e n =
    passes_enough f g (suc p) m os (cc) (omega (arith, n))
passes_enough f g p zero (failed known ∷ os) e n = cc
passes_enough f g p (suc m) (failed known ∷ os) e n = cc

after_failure :
    (fails : ℕ) (os : List Outcome)
    → judge fails 1 zero os ≡ true
    → (m : ℕ) × (heard os ≡ replicate m passed) × (needed fails ≤ m)
unfolding judge
after_failure f [] h = (0, refl, ground arith)
after_failure f (silent ∷ os) h = after_failure f os h
after_failure f (passed ∷ os) h =
    let (m, e, n) = passes_only f 1 zero os h in (suc m, ap (◌∷◌ passed) e, omega (arith, n))
after_failure f (failed known ∷ os) h = cc

from_judge :
    (fails : ℕ) (os : List Outcome)
    → judge fails zero zero os ≡ true
    → (k m : ℕ) × (heard os ≡ replicate k (failed true) ++ replicate m passed)
      × (k ≤ 1)
      × (needed (fails + k) ≤ m)
unfolding judge
from_judge f [] h = (0, 0, refl, omega arith, ground arith)
from_judge f (silent ∷ os) h = from_judge f os h
from_judge f (passed ∷ os) h =
    let (m, e, n) = passes_only f zero zero os h in
    (0, suc m, ap (◌∷◌ passed) e, omega arith, rw add-zero (omega (arith, n)))
from_judge f (failed true ∷ os) h =
    let (m, e, n) = after_failure (suc f) os h in
    (1, m, ap (◌∷◌ (failed true)) e, omega arith, rw add-one n)
from_judge f (failed false ∷ os) h = cc

to_judge :
    (fails k m : ℕ) (os : List Outcome)
    → heard os ≡ replicate k (failed true) ++ replicate m passed
    → k ≤ 1
    → needed (fails + k) ≤ m
    → judge fails zero zero os ≡ true
unfolding judge
to_judge f zero m os e l n =
    let n' = rw add-zero at n in passes_enough f zero zero m os e (omega (arith, n'))
to_judge f (suc zero) m [] e l n = cc
to_judge f (suc zero) m (silent ∷ os) e l n = to_judge f (suc zero) m os e l n
to_judge f (suc zero) m (passed ∷ os) e l n = cc
to_judge f (suc zero) m (failed true ∷ os) e l n =
    passes_enough (suc f) 1 zero m os (cc) (omega (arith, rw add-one at n))
to_judge f (suc zero) m (failed false ∷ os) e l n = cc
to_judge f (suc (suc k)) m os e l n = absurd (omega arith)

needed-passes_wanted :
    (silent_run : Bool) (k : ℕ)
    → needed ((if silent_run then 0 else 1) + k) ≡ passes_wanted silent_run k
needed-passes_wanted true zero = refl
needed-passes_wanted true (suc k) = rw zero-add refl
needed-passes_wanted false k = rw one-add refl

-- A scenario that did not pass is accepted on its reruns exactly when those that are a verdict are at
-- most one failure, of a documented shape, and then passes alone: at least two of them if the full
-- run or a rerun failed, at least one if the full run had no verdict and no rerun failed.
pub rerun_rule :
    (provider scenario : String) (original : Status) (reruns : List Report)
    → (rerun_verdict provider scenario original reruns ≡ true) ↔ (
        (k m : ℕ) × (heard (map (outcome provider scenario) reruns)
          ≡ replicate k (failed true) ++ replicate m passed)
        × (k ≤ 1)
        × (passes_wanted (has_no_verdict original) k ≤ m))
unfolding rerun_verdict
rerun_rule provider scenario original reruns =
    let fails = if has_no_verdict original then 0 else 1 in
    let os = map (outcome provider scenario) reruns in
    let same = loop-judge provider scenario reruns fails 0 0 in
    let wanted = needed-passes_wanted (has_no_verdict original) in
    (
      λ h.
          let (k, m, e, l, n) = from_judge fails os (sym same ∙ h) in
          (k, m, e, l, subst (λ x. x ≤ m) (wanted k) n),
      λ (k, m, e, l, n). same ∙ to_judge fails k m os e l (subst (λ x. x ≤ m) (sym (wanted k)) n),
    )
