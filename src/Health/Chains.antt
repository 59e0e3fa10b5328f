-- ===== src/Health/Chains.antt =====
-- src/obs_agent/jsonl_health.py: `_collect_chain_unsafe`, the rows whose chain of ancestors holds a poisoned row
-- or a cycle. Identifiers are numbers, in place of texts that are not empty.
use recursive_harness_builde.Prelude.{
  ℕ, zero, suc, Option, none, some, Bool, true, false, List, [], ◌∷◌, ◌++◌, nat_eq, contains,
  lookup, length, if◌then◌else◌,
}

-- `by_uuid`, of which the parents alone are read.
abbrev pub Parents : Type 0
Parents = List (ℕ × Option ℕ)

pub record Verdicts : Type 0 where
  pub unsafe : List ℕ
  pub safe : List ℕ

-- What a walk finds: the rows on its path, the last one first, and whether they are unsafe.
pub data Walked : Type 0 where
  found : Bool → List ℕ → Walked
  out_of_fuel : Walked

-- The walk from a row to the first one whose verdict is known.
unfoldable pub climb : ℕ → Parents → Verdicts → Option ℕ → List ℕ → Walked
climb fuel d v none path = found false path
climb zero d v (some u) path = out_of_fuel
climb (suc fuel) d v (some u) path = elim (contains v.unsafe u) [
  | true ↦ found true path
  | false ↦ elim (contains v.safe u) [
    | true ↦ found false path
    | false ↦ elim (contains path u) [
      | true ↦ found true path
      | false ↦ elim (lookup u d) [
        | none ↦ found false path
        | some parent ↦ climb fuel d v parent (u ∷ path)
      ]
    ]
  ]
]

unfoldable pub update : Walked → Verdicts → Verdicts
update (found true path) v = record v { unsafe = path ++ v.unsafe }
update (found false path) v = record v { safe = path ++ v.safe }
update out_of_fuel v = v

abbrev pub judge : Parents → ℕ → Verdicts → Verdicts
judge d u v =
    if contains v.unsafe u
    then v
    else (if contains v.safe u then v else update (climb (suc (length d)) d v (some u) []) v)

unfoldable pub judge_all : Parents → List ℕ → Verdicts → Verdicts
judge_all d [] v = v
judge_all d (u ∷ us) v = judge_all d us (judge d u v)

unfoldable pub ids : Parents → List ℕ
ids [] = []
ids ((u, p) ∷ d) = u ∷ ids d

-- `_collect_chain_unsafe`
unfoldable pub collect_chain_unsafe : Parents → List ℕ → List ℕ
collect_chain_unsafe d poison = (judge_all d (ids d) (record { unsafe = poison; safe = [] })).unsafe
