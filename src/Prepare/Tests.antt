-- ===== src/Prepare/Tests.antt =====
-- src/obs_agent/jsonl_replay.py: a transcript with an old tool call that was never answered, and later two calls
-- in parallel.
use recursive_harness_builde.Prelude.{
  ℕ, ◌≡◌, refl, none, some, false, List, [], ◌∷◌, ◌++◌, any, contains, insert, lookup, take, drop,
  Entries, nat_eq,
}
use recursive_harness_builde.Replay.Rows.{
  user, assistant, tool_use, tool_result, text, Row, RowMap, and_then, keys, keep, put_all,
  effective, walk,
}
use recursive_harness_builde.Replay.Samples.{row}
use recursive_harness_builde.Replay.Select.{
  tool_uses, tool_results, all_uses, all_results, newest, until, message_ids, repeat_for,
  candidates, on_branch, answer, resolve, all_in, checked, gather, select_replay_entries,
}
use recursive_harness_builde.Replay.Overlays.{relink, rows_of}
use recursive_harness_builde.Replay.Chain.{linked}
use recursive_harness_builde.Health.Analysis.{Health}
use recursive_harness_builde.Prepare.Legacy.{
  prepared, is_invalid, invalid_groups, last_index, limit_from, is_boundary, window, repair_suffix,
  prepare,
}
use recursive_harness_builde.Prepare.Window.{first_parent}
use recursive_harness_builde.Prepare.Opaque.{prepare-opaque}

abbrev damaged : List Row
damaged =
    row (some 1) none user none (text ∷ [])
    ∷ row (some 2) (some 1) assistant (some 50) (tool_use 7 ∷ [])
    ∷ row (some 3) (some 2) user none (text ∷ [])
    ∷ row (some 4) (some 3) assistant (some 51) (tool_use 8 ∷ [])
    ∷ row (some 5) (some 4) assistant (some 51) (tool_use 9 ∷ [])
    ∷ row (some 6) (some 4) user none (tool_result 8 ∷ [])
    ∷ row (some 7) (some 5) user none (tool_result 9 ∷ [])
    ∷ row (some 8) (some 7) assistant (some 52) (text ∷ [])
    ∷ []

abbrev selection : RowMap
selection =
    (1, row (some 1) none user none (text ∷ []))
    ∷ (2, row (some 2) (some 1) assistant (some 50) (tool_use 7 ∷ []))
    ∷ (3, row (some 3) (some 2) user none (text ∷ []))
    ∷ (4, row (some 4) (some 3) assistant (some 51) (tool_use 8 ∷ []))
    ∷ (5, row (some 5) (some 4) assistant (some 51) (tool_use 9 ∷ []))
    ∷ (6, row (some 6) (some 4) user none (tool_result 8 ∷ []))
    ∷ (7, row (some 7) (some 5) user none (tool_result 9 ∷ []))
    ∷ (8, row (some 8) (some 7) assistant (some 52) (text ∷ []))
    ∷ []

abbrev health : Health
health = record {
  uuid_lines = [];
  unsafe_uuids = [];
  tail = record {
    first_poison = none;
    last_poison = none;
    poison = [];
    first_unsafe = none;
    reason = none;
    recovery = none;
  };
  targets = (1, 1) ∷ (3, 3) ∷ (4, 7) ∷ (5, 7) ∷ (6, 7) ∷ (7, 7) ∷ (8, 8) ∷ [];
  chain_uuids = [];
  recovered = [];
}

abbrev as_listed : List ℕ → List ℕ
as_listed tools = tools

-- The results hang in a row behind the calls; the rest stays.
abbrev overlays : RowMap
overlays =
    (6, row (some 6) (some 5) user none (tool_result 8 ∷ []))
    ∷ (7, row (some 7) (some 6) user none (tool_result 9 ∷ []))
    ∷ []

prepared_damaged :
    prepare as_listed health none damaged ≡ prepared selection (some 1) (some 8) overlays
unfolding prepare repair_suffix invalid_groups last_index limit_from is_boundary relink take drop
    lookup contains select_replay_entries effective put_all insert newest walk and_then gather
    message_ids until keep all_uses tool_uses all_results tool_results keys resolve answer on_branch
    candidates repeat_for checked all_in any
prepared_damaged = refl

prepare-opaque_example :
    (any (is_invalid (all_results (window 1 8 selection))) (window 1 8 selection) ≡ false)
    × Entries
        (λ u r. lookup u (effective (damaged ++ rows_of overlays)) ≡ some r)
        (linked (first_parent (window 1 8 selection)) (window 1 8 selection))
    × (lookup 2 (effective (damaged ++ rows_of overlays)) ≡ lookup 2 (effective damaged))
unfolding take drop contains keys
prepare-opaque_example =
    prepare-opaque as_listed health none damaged selection overlays 1 8 2 prepared_damaged refl
