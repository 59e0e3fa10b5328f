-- ===== src/Fork/Copy.antt =====
-- src/obs_agent/jsonl_fork.py: `fork_session_jsonl` up to the file that it writes. The health of the source and of a
-- branch of it are arguments, as is the order in which a set is iterated.
use recursive_harness_builde.Prelude.{
  ℕ, Option, none, some, is_some, Bool, true, false, ◌&&◌, not, List, [], ◌∷◌, ◌++◌, is_empty,
  contains, nat_eq, if◌then◌else◌,
}
use recursive_harness_builde.Replay.Rows.{Row, RowMap, Refusal, Result, ok, refused, keys}
use recursive_harness_builde.Replay.Select.{select_replay_entries}
use recursive_harness_builde.Health.Boundaries.{Targets}
use recursive_harness_builde.Health.Analysis.{Health}
use recursive_harness_builde.Prepare.Legacy.{is_legacy, is_boundary}
use recursive_harness_builde.Health.Resolve.{SafeTarget, has_uuid, resolve_target}

pub data Fork : Type 0 where
  target_unknown : Fork
  no_boundary : Fork
  empty_session : Fork
  replay_refused : Refusal → Fork
  nothing_selected : Fork  -- `next` on the empty selection raises
  forked : ℕ → List Row → Fork

abbrev pub is_chosen : List ℕ → Row → Bool
is_chosen uuids r = elim r.uuid as (λ o. Bool) [ none ↦ false | some u ↦ contains uuids u ]

-- The rows before the first one that is selected, the last one first.
unfoldable pub before_first : List ℕ → List Row → List Row → List Row
before_first uuids seen [] = seen
before_first uuids seen (r ∷ rows) =
    let rest = before_first uuids (r ∷ seen) rows in if is_chosen uuids r then seen else rest

-- `_adjacent_metadata`: back from there, the rows up to the last one with an identifier.
unfoldable pub adjacent_metadata : List Row → List Row → List Row
adjacent_metadata metadata [] = metadata
adjacent_metadata metadata (r ∷ rows) =
    let rest = adjacent_metadata (r ∷ metadata) rows in if is_some r.uuid then metadata else rest

unfoldable pub chosen_rows : List ℕ → List Row → List Row
chosen_rows uuids [] = []
chosen_rows uuids (r ∷ rows) =
    let rest = chosen_rows uuids rows in if is_chosen uuids r then r ∷ rest else rest

-- `output_entries`
unfoldable pub output_rows : RowMap → List Row → List Row
output_rows selected rows =
    adjacent_metadata [] (before_first (keys selected) [] rows) ++ chosen_rows (keys selected) rows

abbrev pub copied : ℕ → List Row → Result RowMap → Fork
copied t rows (ok []) = nothing_selected
copied t rows (ok ((u, r) ∷ selected)) = forked t (output_rows ((u, r) ∷ selected) rows)
copied t rows (refused e) = replay_refused e

-- The selection, which may be incomplete where the target is a confirmed boundary.
abbrev pub select_or_inherit : (List ℕ → List ℕ) → Targets → ℕ → List Row → Result RowMap
select_or_inherit spread targets t rows = elim (select_replay_entries spread true (some t) rows) [
  | ok selected ↦ ok selected
  | refused e ↦
      if is_legacy e && is_boundary targets t
      then select_replay_entries spread false (some t) rows
      else refused e
]

-- The health whose boundaries count: that of the branch, where the target was resolved on one.
abbrev pub target_health : Health → (ℕ → Option Health) → SafeTarget → ℕ → Health
target_health h branch t u =
    if t.is_branch then (elim (branch u) as (λ o. Health) [ none ↦ h | some b ↦ b ]) else h

-- `fork_session_jsonl`
unfoldable pub fork_session : (List ℕ → List ℕ) → Health → (ℕ → Option Health) → ℕ → List Row → Fork
fork_session spread h branch u rows =
    if not (has_uuid h u)
    then target_unknown
    else (elim (resolve_target h branch (some u)).target_uuid as (λ o. Fork) [
      | none ↦ no_boundary
      | some t ↦
          if is_empty rows
          then empty_session
          else copied t rows (
              select_or_inherit spread
                (target_health h branch (resolve_target h branch (some u)) u).targets t rows)
    ])
