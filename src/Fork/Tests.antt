-- ===== src/Fork/Tests.antt =====
-- src/obs_agent/jsonl_fork.py: a fork in the middle of a transcript, with a line of metadata before its rows.
use recursive_harness_builde.Prelude.{
  ℕ, ◌≡◌, refl, none, some, Bool, List, [], ◌∷◌, any, contains, insert, lookup,
}
use recursive_harness_builde.Replay.Rows.{
  user, assistant, other, tool_use, tool_result, text, Row, RowMap, ok, and_then, keys, keep,
  put_all, effective, walk,
}
use recursive_harness_builde.Replay.Samples.{row}
use recursive_harness_builde.Replay.Select.{
  tool_uses, tool_results, all_uses, all_results, newest, until, message_ids, repeat_for,
  candidates, on_branch, answer, resolve, all_in, checked, gather, select_replay_entries,
}
use recursive_harness_builde.Health.Analysis.{Health}
use recursive_harness_builde.Health.Resolve.{resolve_target, at_boundary}
use recursive_harness_builde.Fork.Copy.{
  forked, before_first, adjacent_metadata, chosen_rows, output_rows, fork_session,
}
use recursive_harness_builde.Fork.Equal.{fork_session-effective}

abbrev source : List Row
source =
    row none none other none []
    ∷ row (some 1) none user none (text ∷ [])
    ∷ row (some 2) (some 1) assistant (some 50) (tool_use 7 ∷ [])
    ∷ row (some 3) (some 2) user none (tool_result 7 ∷ [])
    ∷ row none none other none []
    ∷ row (some 4) (some 3) assistant (some 51) (text ∷ [])
    ∷ []

abbrev health : Health
health = record {
  uuid_lines = (1, 2) ∷ (2, 3) ∷ (3, 4) ∷ (4, 6) ∷ [];
  unsafe_uuids = [];
  tail = record {
    first_poison = none;
    last_poison = none;
    poison = [];
    first_unsafe = none;
    reason = none;
    recovery = none;
  };
  targets = (1, 1) ∷ (2, 3) ∷ (3, 3) ∷ (4, 4) ∷ [];
  chain_uuids = 1 ∷ 2 ∷ 3 ∷ 4 ∷ [];
  recovered = [];
}

abbrev as_listed : List ℕ → List ℕ
as_listed tools = tools

-- The call's result comes with the row that was asked for, and so does the first line.
abbrev copy : List Row
copy =
    row none none other none []
    ∷ row (some 1) none user none (text ∷ [])
    ∷ row (some 2) (some 1) assistant (some 50) (tool_use 7 ∷ [])
    ∷ row (some 3) (some 2) user none (tool_result 7 ∷ [])
    ∷ []

copied_source : fork_session as_listed health (λ u. none) 2 source ≡ forked 3 copy
unfolding fork_session resolve_target at_boundary lookup contains select_replay_entries effective
    put_all insert newest walk and_then gather message_ids until keep all_uses tool_uses all_results
    tool_results keys resolve answer on_branch candidates repeat_for checked all_in any output_rows
    before_first adjacent_metadata chosen_rows
copied_source = refl

fork_session-effective_example :
    (c : Bool) × (selected : RowMap) × (select_replay_entries as_listed c (some 3) source
      ≡ ok selected)
    × (effective copy ≡ selected)
fork_session-effective_example =
    fork_session-effective as_listed health (λ u. none) 2 3 source copy copied_source
