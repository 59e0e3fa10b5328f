-- ===== src/Replay/Inversion.antt =====
-- src/obs_agent/jsonl_replay.py: what stands behind a selection that succeeds.
use recursive_harness_builde.Prelude.{
  ℕ, suc, ◌≡◌, sym, refl, subst, ◌⊎◌, inl, inr, Option, none, some, Option-cases, Bool, true, false,
  List, [], ◌∷◌, ◌++◌, nat_eq, contains, any, lookup, is_some, length, Bool-cases, arith,
}
use recursive_harness_builde.Replay.Rows.{
  Row, RowMap, Result, ok, refused, and_then, keys, keep, effective, walk,
}
use recursive_harness_builde.Replay.Select.{
  is_faulty, goal_of, resolve, all_in, all_uses, all_results, checked, gather, group_of, until,
  select_at, select_of, select_replay_entries,
}

pub and_then-ok {ℓ κ} :
    {A : Type ℓ} {B : Type κ} (x : Result A) (f : A → Result B) (b : B)
    → and_then x f ≡ ok b
    → (a : A) × (x ≡ ok a) × (f a ≡ ok b)
unfolding and_then
and_then-ok (ok a) f b e = (a, refl, e)
and_then-ok (refused r) f b e = cc e

checked-ok :
    (c : Bool) (tools : List ℕ) (rows selected : RowMap)
    → checked c tools rows ≡ ok selected
    → (selected ≡ rows)
      × (c ≡ true → (all_in (all_results rows) tools ≡ true) × (any is_faulty rows ≡ false))
unfolding checked
checked-ok c tools rows selected e = (ground (arith, e), λ k. ground (arith, e, k))

-- Nothing is selected where there is no row, or none to end at.
abbrev pub IsNothing : Option ℕ → RowMap → RowMap → Type 0
IsNothing target d selected = (selected ≡ []) × ((d ≡ []) ⊎ (goal_of target d ≡ none))

module _ (spread : List ℕ → List ℕ) (c : Bool) where
  -- The steps of a selection that ends at `target`.
  pub record Steps (d : RowMap) (target : ℕ) (selected : RowMap) : Type 0 where
    pub chain : List ℕ
    pub chosen : List ℕ
    pub walked : walk (suc (length d)) d (some target) [] ≡ ok chain
    pub resolved :
        resolve
          (until target d)
          (spread (all_uses (group_of d target chain)))
          (keys (group_of d target chain) ++ chain)
        ≡ ok chosen
    pub kept : selected ≡ keep (λ x. contains chosen x.0) d
    pub complete :
        c ≡ true
        → (all_in (all_results selected) (all_uses (group_of d target chain)) ≡ true)
          × (any is_faulty selected ≡ false)

  select_at-Steps :
      (d : RowMap) (t : ℕ) (selected : RowMap)
      → select_at spread c d t ≡ ok selected
      → Steps d t selected
  unfolding gather
  select_at-Steps d t selected e = elim (Bool-cases (is_some (lookup t d))) [
    | inl b ↦
        let (chain, w, g) =
          and_then-ok (walk (suc (length d)) d (some t) []) (gather spread c d t) selected
            (rw b at e) in
        let (chosen, r, f) =
          and_then-ok
            (resolve (until t d) (spread (all_uses (group_of d t chain)))
              (keys (group_of d t chain) ++ chain))
            (λ chosen.
              checked c (all_uses (group_of d t chain)) (keep (λ x. contains chosen x.0) d))
            selected g in
        let (k, whole) =
          checked-ok c (all_uses (group_of d t chain)) (keep (λ x. contains chosen x.0) d) selected
            f in
        record {
          chain = chain;
          chosen = chosen;
          walked = w;
          resolved = r;
          kept = k;
          complete =
              subst
                (λ s.
                  c ≡ true
                  → (all_in (all_results s) (all_uses (group_of d t chain)) ≡ true)
                    × (any is_faulty s ≡ false))
                (sym k) whole;
        }
    | inr b ↦ cc (rw b at e)
  ]

  select_of-Steps :
      (target : Option ℕ) (d selected : RowMap)
      → select_of spread c target d ≡ ok selected
      → IsNothing target d selected ⊎ ((t : ℕ) × (goal_of target d ≡ some t) × Steps d t selected)
  select_of-Steps target [] selected e = inl (cc e, inl refl)
  select_of-Steps target (x ∷ d) selected e = elim (Option-cases (goal_of target (x ∷ d))) [
    | inl g ↦ inl (ground (arith, e, g), inr g)
    | inr (t, g) ↦ inr (t, g, select_at-Steps (x ∷ d) t selected (ground (arith, e, g)))
  ]

  -- A selection is empty, or has steps to the goal.
  pub select-Steps :
      (target : Option ℕ) (rows : List Row) (selected : RowMap)
      → select_replay_entries spread c target rows ≡ ok selected
      → IsNothing target (effective rows) selected
        ⊎ ((t : ℕ) × (goal_of target (effective rows) ≡ some t) × Steps (effective rows) t selected)
  unfolding select_replay_entries
  select-Steps target rows selected e = select_of-Steps target (effective rows) selected e
