-- ===== src/Health/Verdict.antt =====
-- src/obs_agent/jsonl_health.py: the verdicts of `_collect_chain_unsafe` against the chains of parents themselves.
use recursive_harness_builde.Prelude.{
  ℕ, zero, suc, ◌≤◌, ◌<◌, ◌≡◌, subst, inl, inr, Option, none, some, true, false, List, [], ◌∷◌,
  ◌==◌, ==_iff, nat_eq, contains, lookup, All, Bool-cases, arith,
}
use recursive_harness_builde.Health.Chains.{Parents, Verdicts}

module _ (d : Parents) (poison : List ℕ) where
  -- The chain of parents from here ends, at a root or at a row that is not there, without a poisoned row.
  pub data IsSafe : Option ℕ → Type 0 where
    root : IsSafe none
    absent : {u : ℕ} → contains poison u ≡ false → lookup u d ≡ none → IsSafe (some u)
    child :
        {u : ℕ} {p : Option ℕ}
        → contains poison u ≡ false
        → lookup u d ≡ some p
        → IsSafe p
        → IsSafe (some u)

  height : {u : Option ℕ} → IsSafe u → ℕ
  height root = 0
  height (absent n e) = 0
  height (child n e s) = suc (height s)

  -- The rows of a path, each with the one before it as its parent, up to `c`.
  abbrev pub IsPath : Option ℕ → List ℕ → Type 0
  IsPath c [] = Unit
  IsPath c (u ∷ path) = (contains poison u ≡ false) × (lookup u d ≡ some c) × IsPath (some u) path

  parent-IsSafe :
      (u : ℕ) (c : Option ℕ)
      → lookup u d ≡ some c
      → (s : IsSafe (some u)) → (t : IsSafe c) × (height t < height s)
  unfolding height
  parent-IsSafe u c e (absent n f) = absurd (cc (e, f))
  parent-IsSafe u c e (child {p = p} n f s) =
      let same : p ≡ c = cc (e, f) in
      subst (λ c. (t : IsSafe c) × (height t < suc (height s))) same (s, omega arith)

  -- A safe end makes the whole path safe.
  pub path-IsSafe :
      (c : Option ℕ) (path : List ℕ) → IsPath c path → IsSafe c → All (λ u. IsSafe (some u)) path
  path-IsSafe c [] h s = tt
  path-IsSafe c (u ∷ path) h s = (child h.0 h.1 s, path-IsSafe (some u) path h.2 (child h.0 h.1 s))

  -- A path leads down from each of its rows to its end.
  descend :
      (c : Option ℕ) (path : List ℕ) (u : ℕ)
      → IsPath c path
      → contains path u ≡ true
      → (s : IsSafe (some u)) → (t : IsSafe c) × (height t < height s)
  unfolding contains
  descend c [] u h e = λ s. ground (arith, e)
  descend c (v ∷ path) u h e = elim (Bool-cases (v == u)) [
    | inl b ↦
        subst (λ u. (s : IsSafe (some u)) → (t : IsSafe c) × (height t < height s))
          ((==_iff v u).0 b) (parent-IsSafe v c h.1)
    | inr b ↦ λ s.
        let (t, l) = descend (some v) path u h.2 (ground (arith, b, e)) s in
        let (r, k) = parent-IsSafe v c h.1 t in (r, omega (arith, l, k))
  ]

  no_descent :
      (c : Option ℕ)
      → ((s : IsSafe c) → (t : IsSafe c) × (height t < height s))
      → (n : ℕ) (s : IsSafe c) → ¬ (height s ≤ n)
  no_descent c f zero s = λ l. let (t, k) = f s in omega (arith, l, k)
  no_descent c f (suc n) s = λ l. let (t, k) = f s in no_descent c f n t (omega (arith, l, k))

  -- The end of a path that it runs through already is not safe.
  pub cycle-IsSafe :
      (u : ℕ) (path : List ℕ) → IsPath (some u) path → contains path u ≡ true → ¬ IsSafe (some u)
  cycle-IsSafe u path h e =
      λ s. no_descent (some u) (descend (some u) path u h e) (height s) s (omega arith)

  -- Nor is a path safe whose end is not.
  pub path_unsafe :
      (c : Option ℕ) (path : List ℕ)
      → IsPath c path
      → ¬ IsSafe c
      → All (λ u. ¬ IsSafe (some u)) path
  path_unsafe c [] h n = tt
  path_unsafe c (u ∷ path) h n =
      let m : ¬ IsSafe (some u) = λ s. n (parent-IsSafe u c h.1 s).0 in
      (m, path_unsafe (some u) path h.2 m)

  pub poison_unsafe : (u : ℕ) → contains poison u ≡ true → ¬ IsSafe (some u)
  poison_unsafe u e (absent n f) = ground (arith, e, n)
  poison_unsafe u e (child n f s) = ground (arith, e, n)

  -- What the verdicts given so far say is so, and the poisoned rows are among them.
  pub record IsRight (v : Verdicts) : Type 0 where
    pub unsafe_rows : All (λ u. ¬ IsSafe (some u)) v.unsafe
    pub safe_rows : All (λ u. IsSafe (some u)) v.safe
    pub poisoned : (u : ℕ) → contains poison u ≡ true → contains v.unsafe u ≡ true
