-- ===== src/Replay/Ends.antt =====
-- src/obs_agent/jsonl_replay.py: the walk up the parents and the selection come to an end, whatever rows the
-- transcript holds.
use recursive_harness_builde.Prelude.{
  IsDistinct, IsWithin, pigeonhole, ℕ, zero, suc, ◌+◌, ◌<◌, ◌≡◌, refl, ap, ◌≢◌, ◌⊎◌, inl, inr,
  Option, none, some, Option-cases, Bool, true, List, [], ◌∷◌, ◌++◌, nat_eq, contains, lookup,
  is_some, length, Bool-cases, arith,
}
use recursive_harness_builde.Replay.Rows.{
  Row, RowMap, out_of_fuel, Result, ok, refused, and_then, keys, keep, effective, walk,
}
use recursive_harness_builde.Replay.Select.{
  goal_of, answer, candidates, resolve, all_uses, checked, gather, group_of, until, select_at,
  select_of, select_replay_entries,
}

length-keys : (d : RowMap) → length (keys d) ≡ length d
unfolding keys
length-keys [] = refl
length-keys (x ∷ d) = ap suc (length-keys d)

pub contains-lookup :
    (u : ℕ) (r : Row) (d : RowMap) → lookup u d ≡ some r → contains (keys d) u ≡ true
unfolding contains lookup keys
contains-lookup u r [] h = ground (arith, h)
contains-lookup u r ((v, s) ∷ d) h = ground (arith, h, contains-lookup u r d)

-- Each step of the walk is to a row that was not visited, so the fuel is never short.
walk_ends :
    (fuel : ℕ) (d : RowMap) (u : Option ℕ) (seen : List ℕ)
    → IsDistinct seen
    → IsWithin (keys d) seen
    → length d < fuel + length seen
    → walk fuel d u seen ≢ refused out_of_fuel
unfolding walk
walk_ends zero d none seen n h l = λ e. cc e
walk_ends (suc fuel) d none seen n h l = λ e. cc e
walk_ends zero d (some u) seen n h l =
    λ e. omega (arith, l, pigeonhole seen (keys d) n h, length-keys d)
walk_ends (suc fuel) d (some u) seen n h l = λ e. elim (Bool-cases (contains seen u)) [
  | inl b ↦ cc (rw (walk, b) at e)
  | inr b ↦ elim (Option-cases (lookup u d)) [
    | inl o ↦ cc (rw (walk, b, o) at e)
    | inr (r, o) ↦
        walk_ends fuel d r.parent (u ∷ seen) (b, n) (contains-lookup u r d o, h) (omega (arith, l))
          (rw (walk, b, o) at e)
  ]
]

and_then_out {ℓ κ} :
    {A : Type ℓ} {B : Type κ} (x : Result A) (f : A → Result B)
    → and_then x f ≡ refused out_of_fuel
    → (x ≡ refused out_of_fuel) ⊎ ((a : A) × (f a ≡ refused out_of_fuel))
unfolding and_then
and_then_out (ok a) f e = inr (a, e)
and_then_out (refused r) f e = inl (cc e)

answer_ends :
    (tool : ℕ) (chosen matches : List ℕ) → answer tool chosen matches ≢ refused out_of_fuel
unfolding answer
answer_ends tool chosen matches = λ e. ground (arith, e)

resolve_ends :
    (early : RowMap) (tools chosen : List ℕ) → resolve early tools chosen ≢ refused out_of_fuel
unfolding resolve
resolve_ends early [] chosen = λ e. cc e
resolve_ends early (tool ∷ tools) chosen = λ e.
    elim (and_then_out (answer tool chosen (candidates tool early))
      (λ more. resolve early tools (more ++ chosen)) e) [
        | inl a ↦ answer_ends tool chosen (candidates tool early) a
        | inr (more, a) ↦ resolve_ends early tools (more ++ chosen) a
      ]

checked_ends :
    (c : Bool) (tools : List ℕ) (rows : RowMap) → checked c tools rows ≢ refused out_of_fuel
unfolding checked
checked_ends c tools rows = λ e. ground (arith, e)

module _ (spread : List ℕ → List ℕ) (c : Bool) where
  gather_ends :
      (d : RowMap) (t : ℕ) (chain : List ℕ) → gather spread c d t chain ≢ refused out_of_fuel
  unfolding gather
  gather_ends d t chain = λ e.
      elim (and_then_out
        (resolve (until t d) (spread (all_uses (group_of d t chain)))
          (keys (group_of d t chain) ++ chain))
        (λ chosen. checked c (all_uses (group_of d t chain)) (keep (λ x. contains chosen x.0) d))
        e) [
          | inl a ↦
              resolve_ends (until t d) (spread (all_uses (group_of d t chain)))
                (keys (group_of d t chain) ++ chain) a
          | inr (chosen, a) ↦
              checked_ends c (all_uses (group_of d t chain)) (keep (λ x. contains chosen x.0) d) a
        ]

  select_at_ends : (d : RowMap) (t : ℕ) → select_at spread c d t ≢ refused out_of_fuel
  select_at_ends d t = λ e. elim (Bool-cases (is_some (lookup t d))) [
    | inl b ↦
        elim (and_then_out (walk (suc (length d)) d (some t) []) (gather spread c d t)
          (rw b at e)) [
            | inl a ↦ walk_ends (suc (length d)) d (some t) [] tt tt (omega arith) a
            | inr (chain, a) ↦ gather_ends d t chain a
          ]
    | inr b ↦ cc (rw b at e)
  ]

  select_of_ends :
      (target : Option ℕ) (d : RowMap) → select_of spread c target d ≢ refused out_of_fuel
  select_of_ends target [] = λ e. cc e
  select_of_ends target (x ∷ d) = λ e. elim (Option-cases (goal_of target (x ∷ d))) [
    | inl g ↦ ground (arith, e, g)
    | inr (t, g) ↦ select_at_ends (x ∷ d) t (ground (arith, e, g))
  ]

  -- The fuel given to the walk up the parents, one more than there are rows in the map, is always enough:
  -- over any rows, a cycle of parents included, the selection returns rows or raises an error of the code.
  pub select_ends :
      (target : Option ℕ) (rows : List Row)
      → select_replay_entries spread c target rows ≢ refused out_of_fuel
  unfolding select_replay_entries
  select_ends target rows = select_of_ends target (effective rows)
