-- ===== src/Prepare/Legacy.antt =====
-- src/obs_agent/jsonl_replay.py: `prepare_session_replay` from the rows of the file to the overlays. The health of
-- the file is an argument, as is the order in which a set is iterated.
use recursive_harness_builde.Prelude.{
  ℕ, suc, ◌-◌, Option, none, some, is_some, Bool, true, false, ◌&&◌, ◌||◌, not, List, [], ◌∷◌, any,
  is_empty, contains, lookup, ltb, take, drop, nat_eq, if◌then◌else◌,
}
use recursive_harness_builde.Replay.Rows.{
  Row, RowMap, Refusal, incomplete_round, error_row, Result, ok, refused,
}
use recursive_harness_builde.Replay.Select.{
  is_assistant, is_faulty, tool_uses, all_in, all_results, select_replay_entries,
}
use recursive_harness_builde.Replay.Overlays.{relink}
use recursive_harness_builde.Health.Boundaries.{Targets}
use recursive_harness_builde.Health.Analysis.{Health, needs_recovery}

-- The selected rows with the legacy boundary and the repair limit, and the overlays; or what is raised. The
-- largest index of nothing is an error of its own.
pub data Preparation : Type 0 where
  raised : Refusal → Preparation
  no_invalid_group : Preparation
  prepared : RowMap → Option ℕ → Option ℕ → RowMap → Preparation

abbrev pub is_legacy : Refusal → Bool
is_legacy incomplete_round = true
is_legacy error_row = true
is_legacy r = false

unfoldable pub is_boundary : Targets → ℕ → Bool
is_boundary [] t = false
is_boundary ((u, b) ∷ targets) t = nat_eq.eqb b t || is_boundary targets t

abbrev pub is_confirmed : Health → Option ℕ → Bool
is_confirmed h none = true
is_confirmed h (some t) = is_boundary h.targets t

-- `message.id or uuid`
abbrev pub group_id : ℕ × Row → ℕ
group_id x = elim x.1.message_id [ none ↦ x.0 | some m ↦ m ]

-- A row that is an error, or has a tool call without a result among these.
abbrev pub is_invalid : List ℕ → ℕ × Row → Bool
is_invalid results x = is_faulty x || not (all_in results (tool_uses x.1.content))

unfoldable pub invalid_groups : List ℕ → RowMap → List ℕ
invalid_groups results [] = []
invalid_groups results (x ∷ rows) =
    let rest = invalid_groups results rows in
    if is_invalid results x then group_id x ∷ rest else rest

-- `legacy_boundary`
unfoldable pub last_index : List ℕ → Option ℕ → ℕ → RowMap → Option ℕ
last_index groups found index [] = found
last_index groups found index (x ∷ rows) =
    last_index groups (if contains groups (group_id x) then some index else found) (suc index) rows

-- `repair_limit`
unfoldable pub limit_from : Targets → ℕ → ℕ → RowMap → ℕ
limit_from targets boundary index [] = index
limit_from targets boundary index (x ∷ rows) =
    let rest = limit_from targets boundary (suc index) rows in
    if ltb boundary index && (is_assistant x.1.kind && not (is_some (lookup x.0 targets)))
    then index
    else rest

-- `selected[legacy_boundary + 1:repair_limit]`
abbrev pub window : ℕ → ℕ → RowMap → RowMap
window boundary limit rows = take (limit - suc boundary) (drop (suc boundary) rows)

abbrev pub is_unsound : Targets → RowMap → Bool
is_unsound targets suffix =
    (not (is_empty suffix) && not (any (λ x. is_some (lookup x.0 targets)) suffix))
    || any (is_invalid (all_results suffix)) suffix

abbrev pub repair : Refusal → Targets → RowMap → ℕ → ℕ → Preparation
repair error targets rows boundary limit =
    if is_unsound targets (window boundary limit rows)
    then raised error
    else prepared rows (some boundary) (some limit)
        (relink (some boundary) (some limit) 0 none rows)

unfoldable pub repair_suffix : Refusal → Targets → RowMap → Preparation
repair_suffix error targets rows =
    elim (last_index (invalid_groups (all_results rows) rows) none 0 rows) [
      | none ↦ no_invalid_group
      | some b ↦ repair error targets rows b (limit_from targets b 0 rows)
    ]

abbrev pub repair_result : Refusal → Targets → Result RowMap → Preparation
repair_result error targets (ok rows) = repair_suffix error targets rows
repair_result error targets (refused e) = raised e

abbrev pub retreat : (List ℕ → List ℕ) → Health → Option ℕ → List Row → Refusal → Preparation
retreat spread h target rows error =
    if is_legacy error && (not (needs_recovery h) && is_confirmed h target)
    then repair_result error h.targets (select_replay_entries spread false target rows)
    else raised error

abbrev pub prepare_of :
    (List ℕ → List ℕ) → Health → Option ℕ → List Row → Result RowMap → Preparation
prepare_of spread h target rows (ok selected) =
    prepared selected none none (relink none none 0 none selected)
prepare_of spread h target rows (refused error) = retreat spread h target rows error

-- `prepare_session_replay`
unfoldable pub prepare : (List ℕ → List ℕ) → Health → Option ℕ → List Row → Preparation
prepare spread h target rows =
    prepare_of spread h target rows (select_replay_entries spread true target rows)
