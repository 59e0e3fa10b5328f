-- ===== src/Health/Equal.antt =====
-- src/obs_agent/jsonl_health.py: `_collect_chain_unsafe` finds the rows whose chain is not safe, and no other.
use recursive_harness_builde.Prelude.{
  contains-append, ℕ, suc, ◌≡◌, ◌↔◌, sym, refl, subst, inl, inr, Option, none, some, true, false,
  ◌||◌, List, [], ◌∷◌, ◌++◌, ◌==◌, ==_refl, nat_eq, contains, lookup, length, All, Bool-cases,
  IsWithin, All-contains, arith,
}
use recursive_harness_builde.Health.Chains.{
  Parents, Verdicts, Walked, found, out_of_fuel, climb, update, judge, judge_all, ids,
  collect_chain_unsafe,
}
use recursive_harness_builde.Health.Verdict.{IsSafe, absent, IsRight, poison_unsafe}
use recursive_harness_builde.Health.Marked.{IsFound, climb-IsFound, IsWithin-itself}

All-append : (Q : ℕ → Type 0) (us vs : List ℕ) → All Q us → All Q vs → All Q (us ++ vs)
All-append Q [] vs h k = k
All-append Q (u ∷ us) vs h k = (h.0, All-append Q us vs h.1 k)

-- A row has its verdict.
IsSettled : Verdicts → ℕ → Type 0
IsSettled v u = (contains v.unsafe u || contains v.safe u) ≡ true

IsSettled-update : (w : Walked) (v : Verdicts) (u : ℕ) → IsSettled v u → IsSettled (update w v) u
unfolding update IsSettled
IsSettled-update (found true path) v u h = ground (arith, h, contains-append path v.unsafe u)
IsSettled-update (found false path) v u h = ground (arith, h, contains-append path v.safe u)
IsSettled-update out_of_fuel v u h = h

lookup-ids :
    (u : ℕ) (rows : Parents)
    → contains (ids rows) u ≡ true
    → (p : Option ℕ) × (lookup u rows ≡ some p)
unfolding contains lookup ids
lookup-ids u [] h = absurd (ground (arith, h))
lookup-ids u ((v, p) ∷ rows) h = elim (Bool-cases (v == u)) [
  | inl e ↦ rw e (p, refl)
  | inr e ↦ rw e (lookup-ids u rows (ground (arith, h, e)))
]

lookup-absent : (u : ℕ) (rows : Parents) → contains (ids rows) u ≡ false → lookup u rows ≡ none
unfolding contains lookup ids
lookup-absent u [] h = refl
lookup-absent u ((v, p) ∷ rows) h = ground (arith, h, lookup-absent u rows)

All-self : (Q : ℕ → Type 0) (us : List ℕ) → ((u : ℕ) → contains us u ≡ true → Q u) → All Q us
unfolding contains
All-self Q [] f = tt
All-self Q (u ∷ us) f = (f u (rw (==_refl u) refl), All-self Q us (λ v e. f v (ground (arith, e))))

module _ (d : Parents) (poison : List ℕ) where
  IsRight-update :
      (start : List ℕ) (w : Walked) (v : Verdicts)
      → IsRight d poison v
      → IsFound d poison start w
      → IsRight d poison (update w v)
  unfolding update IsFound
  IsRight-update start (found true path) v r f = record {
    unsafe_rows = All-append (λ u. ¬ IsSafe d poison (some u)) path v.unsafe f.0 r.unsafe_rows;
    safe_rows = r.safe_rows;
    poisoned = λ u e. ground (arith, contains-append path v.unsafe u, r.poisoned u e);
  }
  IsRight-update start (found false path) v r f = record {
    unsafe_rows = r.unsafe_rows;
    safe_rows = All-append (λ u. IsSafe d poison (some u)) path v.safe f.0 r.safe_rows;
    poisoned = r.poisoned;
  }
  IsRight-update start out_of_fuel v r f = absurd f

  IsSettled-here :
      (u : ℕ) (w : Walked) (v : Verdicts) → IsFound d poison (u ∷ []) w → IsSettled (update w v) u
  unfolding update IsFound IsSettled
  IsSettled-here u (found true path) v f = ground (arith, contains-append path v.unsafe u, f.1.0)
  IsSettled-here u (found false path) v f = ground (arith, contains-append path v.safe u, f.1.0)
  IsSettled-here u out_of_fuel v f = absurd f

  climb_first :
      (fuel : ℕ) (v : Verdicts) (u : ℕ) (p : Option ℕ)
      → contains v.unsafe u ≡ false
      → contains v.safe u ≡ false
      → lookup u d ≡ some p
      → climb (suc fuel) d v (some u) [] ≡ climb fuel d v p (u ∷ [])
  unfolding climb contains
  climb_first fuel v u p a b o = rw (climb, a, b, o) refl

  abbrev IsDone : Verdicts → ℕ → Type 0
  IsDone v u = IsRight d poison v × IsSettled v u

  -- A row that has no verdict yet gets one, and so do those on its path.
  climb-IsDone :
      (v : Verdicts) (u : ℕ)
      → IsRight d poison v
      → contains v.unsafe u ≡ false
      → contains v.safe u ≡ false
      → contains (ids d) u ≡ true
      → IsDone (update (climb (suc (length d)) d v (some u) []) v) u
  unfolding contains
  climb-IsDone v u r a b i =
      let (p, o) = lookup-ids u d i in
      let f : IsFound d poison (u ∷ []) (climb (length d) d v p (u ∷ [])) =
        climb-IsFound d poison (length d) v p (u ∷ []) r (ground (arith, a, r.poisoned u), o, tt)
          (refl, tt) (i, tt) (omega arith) in
      subst (λ w. IsDone (update w v) u) (sym (climb_first (length d) v u p a b o))
        (
          IsRight-update (u ∷ []) (climb (length d) d v p (u ∷ [])) v r f,
          IsSettled-here u (climb (length d) d v p (u ∷ [])) v f,
        )

  judge-IsDone :
      (v : Verdicts) (u : ℕ)
      → IsRight d poison v
      → contains (ids d) u ≡ true
      → IsDone (judge d u v) u
  unfolding IsSettled
  judge-IsDone v u r i = elim (Bool-cases (contains v.unsafe u)) [
    | inl a ↦ rw (judge, a) (r, rw a refl)
    | inr a ↦ elim (Bool-cases (contains v.safe u)) [
      | inl b ↦ rw (judge, a, b) (r, rw (a, b) refl)
      | inr b ↦ rw (judge, a, b) (climb-IsDone v u r a b i)
    ]
  ]

  IsSettled-judge : (v : Verdicts) (u w : ℕ) → IsSettled v w → IsSettled (judge d u v) w
  IsSettled-judge v u w h = elim (Bool-cases (contains v.unsafe u)) [
    | inl a ↦ rw (judge, a) h
    | inr a ↦ elim (Bool-cases (contains v.safe u)) [
      | inl b ↦ rw (judge, a, b) h
      | inr b ↦ rw (judge, a, b) (IsSettled-update (climb (suc (length d)) d v (some u) []) v w h)
    ]
  ]

  IsSettled-judge_all :
      (us : List ℕ) (v : Verdicts) (w : ℕ) → IsSettled v w → IsSettled (judge_all d us v) w
  unfolding judge_all
  IsSettled-judge_all [] v w h = h
  IsSettled-judge_all (u ∷ us) v w h =
      IsSettled-judge_all us (judge d u v) w (IsSettled-judge v u w h)

  judge_all-IsDone :
      (us : List ℕ) (v : Verdicts)
      → IsRight d poison v
      → IsWithin (ids d) us
      → IsRight d poison (judge_all d us v) × All (IsSettled (judge_all d us v)) us
  unfolding judge_all
  judge_all-IsDone [] v r h = (r, tt)
  judge_all-IsDone (u ∷ us) v r h =
      let (k, s) = judge-IsDone v u r h.0 in
      let (m, t) = judge_all-IsDone us (judge d u v) k h.1 in
      (m, (IsSettled-judge_all us (judge d u v) u s, t))

  nothing-IsRight : IsRight d poison (record { unsafe = poison; safe = [] })
  nothing-IsRight = record {
    unsafe_rows = All-self (λ u. ¬ IsSafe d poison (some u)) poison (poison_unsafe d poison);
    safe_rows = tt;
    poisoned = λ u e. e;
  }

  verdict-IsSafe :
      (v : Verdicts) (u : ℕ)
      → IsRight d poison v
      → All (IsSettled v) (ids d)
      → (contains v.unsafe u ≡ false) ↔ IsSafe d poison (some u)
  unfolding IsSettled
  verdict-IsSafe v u r s = (
    λ e. elim (Bool-cases (contains (ids d) u)) [
      | inl i ↦
          All-contains (λ w. IsSafe d poison (some w)) v.safe u r.safe_rows
            (ground (arith, e, All-contains (IsSettled v) (ids d) u s i))
      | inr i ↦ absent (ground (arith, e, r.poisoned u)) (lookup-absent u d i)
    ],
    λ k. elim (Bool-cases (contains v.unsafe u)) [
      | inl e ↦ absurd (All-contains (λ w. ¬ IsSafe d poison (some w)) v.unsafe u r.unsafe_rows e k)
      | inr e ↦ e
    ],
  )

  -- The walks that stop at a known verdict find what the chains of parents say: for every row and set of
  -- poisoned rows, a row is not among the unsafe ones exactly if its chain of parents ends, at a root or at
  -- a parent that is not in the file, and no row on it is poisoned.
  pub collect_chain_unsafe-IsSafe :
      (u : ℕ) → (contains (collect_chain_unsafe d poison) u ≡ false) ↔ IsSafe d poison (some u)
  unfolding collect_chain_unsafe
  collect_chain_unsafe-IsSafe u =
      let (r, s) =
        judge_all-IsDone (ids d) (record { unsafe = poison; safe = [] }) nothing-IsRight
          (IsWithin-itself (ids d)) in
      verdict-IsSafe (judge_all d (ids d) (record { unsafe = poison; safe = [] })) u r s
