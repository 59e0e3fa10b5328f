-- ===== src/Health/Recovered.antt =====
-- src/obs_agent/jsonl_health.py: `_recovered_poison_uuids`, the poisoned rows that a complete answer descends from.
use recursive_harness_builde.Prelude.{
  ℕ, zero, suc, Option, none, some, is_some, Bool, true, false, ◌&&◌, ◌||◌, List, [], ◌∷◌, is_empty,
  contains, lookup, length, nat_eq, if◌then◌else◌,
}
use recursive_harness_builde.Health.Chains.{Parents}
use recursive_harness_builde.Health.Entries.{Entry, is_real_assistant}
use recursive_harness_builde.Health.Boundaries.{Targets}

abbrev pub parent_of : Parents → ℕ → Option ℕ
parent_of d u = elim (lookup u d) [ none ↦ none | some p ↦ p ]

-- The walk from the parent of an answer to the first row that is known to be above one.
unfoldable pub above : ℕ → Parents → Option ℕ → List ℕ → List ℕ → List ℕ
above fuel d none seen ancestry = ancestry
above zero d (some u) seen ancestry = ancestry
above (suc fuel) d (some u) seen ancestry = elim (contains ancestry u || contains seen u) [
  | true ↦ ancestry
  | false ↦ above fuel d (parent_of d u) (u ∷ seen) (u ∷ ancestry)
]

unfoldable pub above_all : Parents → List (Option ℕ) → List ℕ → List ℕ
above_all d [] ancestry = ancestry
above_all d (c ∷ cs) ancestry = above_all d cs (above (suc (length d)) d c [] ancestry)

-- The parents of the answers that are complete.
unfoldable pub answer_parents : Targets → List Entry → List (Option ℕ)
answer_parents targets [] = []
answer_parents targets (e ∷ es) =
    let rest = answer_parents targets es in
    let is_target = elim e.row.uuid as (λ o. Bool) [
      | none ↦ false
      | some u ↦ is_some (lookup u targets)
    ] in
    if is_real_assistant e && is_target then e.row.parent ∷ rest else rest

unfoldable pub common : List ℕ → List ℕ → List ℕ
common us [] = []
common us (v ∷ vs) = let rest = common us vs in if contains us v then v ∷ rest else rest

-- `_recovered_poison_uuids`
unfoldable pub recovered_poison : Targets → Parents → List ℕ → List Entry → List ℕ
recovered_poison targets d poison es =
    if is_empty poison then [] else common (above_all d (answer_parents targets es) []) poison
