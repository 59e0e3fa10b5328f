-- ===== src/Health/Marked.antt =====
-- src/obs_agent/jsonl_health.py: the walks of `_collect_chain_unsafe` give each row its verdict.
use recursive_harness_builde.Prelude.{
  ℕ, zero, suc, ◌+◌, ◌<◌, ◌≡◌, refl, ap, inl, inr, Option, none, some, Option-cases, true, false,
  List, [], ◌∷◌, ==_refl, nat_eq, contains, lookup, length, All, Bool-cases, IsDistinct, IsWithin,
  All-contains, pigeonhole, arith,
}
use recursive_harness_builde.Health.Chains.{
  Parents, Verdicts, Walked, found, out_of_fuel, climb, ids,
}
use recursive_harness_builde.Health.Verdict.{
  IsSafe, root, absent, IsPath, path-IsSafe, cycle-IsSafe, path_unsafe, IsRight,
}

pub contains-ids :
    (u : ℕ) (p : Option ℕ) (d : Parents) → lookup u d ≡ some p → contains (ids d) u ≡ true
unfolding contains lookup ids
contains-ids u p [] h = ground (arith, h)
contains-ids u p ((v, q) ∷ d) h = ground (arith, h, contains-ids u p d)

pub length-ids : (d : Parents) → length (ids d) ≡ length d
unfolding ids
length-ids [] = refl
length-ids (x ∷ d) = ap suc (length-ids d)

pub contains_behind : (v : ℕ) (us vs : List ℕ) → IsWithin vs us → IsWithin (v ∷ vs) us
unfolding contains
contains_behind v [] vs h = tt
contains_behind v (u ∷ us) vs h = (ground (arith, h.0), contains_behind v us vs h.1)

pub IsWithin-itself : (us : List ℕ) → IsWithin us us
unfolding contains
IsWithin-itself [] = tt
IsWithin-itself (u ∷ us) = (rw (==_refl u) refl, contains_behind u us us (IsWithin-itself us))

module _ (d : Parents) (poison : List ℕ) where
  -- What a walk finds is right of every row on its path, which goes on from `start`.
  unfoldable pub IsFound : List ℕ → Walked → Type 0
  IsFound start (found true path) = All (λ u. ¬ IsSafe d poison (some u)) path × IsWithin path start
  IsFound start (found false path) = All (λ u. IsSafe d poison (some u)) path × IsWithin path start
  IsFound start out_of_fuel = ⊥

  IsFound-longer : (u : ℕ) (path : List ℕ) (w : Walked) → IsFound (u ∷ path) w → IsFound path w
  unfolding IsFound
  IsFound-longer u path (found true p) h = (h.0, h.1.1)
  IsFound-longer u path (found false p) h = (h.0, h.1.1)
  IsFound-longer u path out_of_fuel h = h

  pub climb-IsFound :
      (fuel : ℕ) (v : Verdicts) (c : Option ℕ) (path : List ℕ)
      → IsRight d poison v
      → IsPath d poison c path
      → IsDistinct path
      → IsWithin (ids d) path
      → length d < fuel + length path
      → IsFound path (climb fuel d v c path)
  unfolding climb IsFound
  climb-IsFound zero v none path r h n w l =
      (path-IsSafe d poison none path h root, IsWithin-itself path)
  climb-IsFound (suc fuel) v none path r h n w l =
      (path-IsSafe d poison none path h root, IsWithin-itself path)
  climb-IsFound zero v (some u) path r h n w l =
      omega (arith, l, pigeonhole path (ids d) n w, length-ids d)
  climb-IsFound (suc fuel) v (some u) path r h n w l = elim (Bool-cases (contains v.unsafe u)) [
    | inl a ↦
        rw (climb, a)
          (
            path_unsafe d poison (some u) path h
                (All-contains (λ u. ¬ IsSafe d poison (some u)) v.unsafe u r.unsafe_rows a),
            IsWithin-itself path,
          )
    | inr a ↦ elim (Bool-cases (contains v.safe u)) [
      | inl b ↦
          rw (climb, a, b)
            (
              path-IsSafe d poison (some u) path h
                  (All-contains (λ u. IsSafe d poison (some u)) v.safe u r.safe_rows b),
              IsWithin-itself path,
            )
      | inr b ↦ elim (Bool-cases (contains path u)) [
        | inl e ↦
            rw (climb, a, b, e)
              (
                path_unsafe d poison (some u) path h (cycle-IsSafe d poison u path h e),
                IsWithin-itself path,
              )
        | inr e ↦
            let clean : contains poison u ≡ false = ground (arith, a, r.poisoned u) in
            elim (Option-cases (lookup u d)) [
              | inl o ↦
                  rw (climb, a, b, e, o)
                    (path-IsSafe d poison (some u) path h (absent clean o), IsWithin-itself path)
              | inr (p, o) ↦
                  rw (climb, a, b, e, o)
                    (IsFound-longer u path (climb fuel d v p (u ∷ path)) (
                      climb-IsFound fuel v p (u ∷ path) r (clean, o, h) (e, n)
                        (contains-ids u p d o, w) (omega (arith, l))))
            ]
      ]
    ]
  ]
