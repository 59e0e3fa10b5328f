-- ===== src/Health/Tests.antt =====
-- src/obs_agent/jsonl_health.py: a transcript that ends in an API error, and the theorems at it.
use recursive_harness_builde.Prelude.{
  ℕ, ◌≡◌, ◌↔◌, ◌≤◌, refl, Option, none, some, Bool, true, false, List, [], ◌∷◌, any, contains,
  insert, lookup, nat_eq, arith,
}
use recursive_harness_builde.Replay.Rows.{
  Kind, user, assistant, text, Row, ok, and_then, keys, keep, put_all, effective, walk,
}
use recursive_harness_builde.Replay.Select.{
  tool_uses, tool_results, all_uses, all_results, newest, until, message_ids, repeat_for,
  candidates, on_branch, answer, resolve, all_in, checked, gather, select_replay_entries,
}
use recursive_harness_builde.Health.Chains.{
  Parents, collect_chain_unsafe, judge_all, climb, update, ids,
}
use recursive_harness_builde.Health.Verdict.{IsSafe}
use recursive_harness_builde.Health.Equal.{collect_chain_unsafe-IsSafe}
use recursive_harness_builde.Health.Entries.{Entry, put_entries}
use recursive_harness_builde.Health.Boundaries.{
  Targets, add_results, results_of, append_to, groups_of, user_boundaries, target_all, user_targets,
  group_uses, answers, latest, last_entry, latest_start, rows_of_entries, boundary_of, close_groups,
  place, sorted, completed_boundaries,
}
use recursive_harness_builde.Health.Recovered.{
  above, above_all, answer_parents, common, recovered_poison,
}
use recursive_harness_builde.Health.Above.{IsAbove, IsAboveAny, recovered_poison-IsAboveAny}
use recursive_harness_builde.Health.Analysis.{
  parents_of, lines_of, map_rows, active, uuids_where, without, entries_outside, last_of_entries,
  real_assistants, entries_after, entries_before, pending_groups, first_tail, last_plain_user,
  choose_safe_recovery, poison_loop, tail_of, health_of, analyze, Health, is_uuid_safe,
}
use recursive_harness_builde.Health.Resolve.{
  line_of, resolve_target, candidate_targets, latest_line, at_boundary,
}
use recursive_harness_builde.Health.Resolved.{is_end_of_entry, resolve_target-nearest}
use recursive_harness_builde.Health.Inherited.{analyze-keeps_tail_out}

-- A line with its parents: the first three end at a root, the fourth is its own parent.
abbrev chains : Parents
chains = (1, none) ∷ (2, some 1) ∷ (3, some 2) ∷ (4, some 4) ∷ []

cycle_unsafe : collect_chain_unsafe chains (2 ∷ []) ≡ 4 ∷ 3 ∷ 2 ∷ []
unfolding collect_chain_unsafe judge_all climb update ids contains lookup
cycle_unsafe = refl

collect_chain_unsafe-IsSafe_example :
    (contains (collect_chain_unsafe chains (2 ∷ [])) 1 ≡ false) ↔ IsSafe chains (2 ∷ []) (some 1)
collect_chain_unsafe-IsSafe_example = collect_chain_unsafe-IsSafe chains (2 ∷ []) 1

abbrev entry : ℕ → Option ℕ → Kind → Bool → Entry
entry n p k is_error = record {
  line_no = n;
  row = record {
    uuid = some n;
    parent = p;
    kind = k;
    is_sidechain = false;
    timestamp = n;
    message_id = none;
    content = text ∷ [];
    is_api_error = is_error;
    is_synthetic = is_error;
  };
  role = k;
  has_error = false;
  is_too_long = false;
  has_text = true;
  has_content = true;
  is_answered = true;
}

abbrev failed : List Entry
failed =
    entry 1 none user false
    ∷ entry 2 (some 1) assistant false
    ∷ entry 3 (some 2) user false
    ∷ entry 4 (some 3) assistant true
    ∷ []

-- After a further question an answer descends from the error.
abbrev resumed : List Entry
resumed =
    entry 1 none user false
    ∷ entry 2 (some 1) assistant true
    ∷ entry 3 (some 2) user false
    ∷ entry 4 (some 3) assistant false
    ∷ []

abbrev ends : Targets
ends = (1, 1) ∷ (3, 3) ∷ (4, 4) ∷ []

abbrev resumed_chains : Parents
resumed_chains = (1, none) ∷ (2, some 1) ∷ (3, some 2) ∷ (4, some 3) ∷ []

recovered_error : recovered_poison ends resumed_chains (2 ∷ []) resumed ≡ 2 ∷ []
unfolding recovered_poison common above_all above answer_parents contains lookup
recovered_error = refl

recovered_poison-IsAboveAny_example :
    (contains (recovered_poison ends resumed_chains (2 ∷ []) resumed) 2 ≡ true) ↔ (
      (contains {A = ℕ} (2 ∷ []) 2 ≡ true)
      × IsAboveAny resumed_chains (answer_parents ends resumed) 2)
recovered_poison-IsAboveAny_example =
    recovered_poison-IsAboveAny ends resumed_chains (2 ∷ []) resumed 2

abbrev never : List Row → Bool
never rows = false

abbrev as_listed : List ℕ → List ℕ
as_listed tools = tools

abbrev sick : Health
sick = health_of never (put_entries [] failed) (1 ∷ 2 ∷ 3 ∷ 4 ∷ []) failed

analyzed : analyze never as_listed none failed ≡ ok sick
unfolding analyze put_entries insert lookup map_rows active contains select_replay_entries effective
    put_all newest walk and_then gather message_ids until keep all_uses tool_uses all_results
    tool_results keys resolve answer on_branch candidates repeat_for checked all_in any
analyzed = refl

analyze-keeps_tail_out_example : ¬ IsAbove (parents_of (put_entries [] failed)) (some 2) 4
unfolding health_of put_entries insert lookup contains parents_of lines_of active uuids_where
    without entries_outside last_of_entries real_assistants entries_after entries_before
    pending_groups first_tail last_plain_user choose_safe_recovery poison_loop tail_of add_results
    results_of append_to groups_of user_boundaries target_all user_targets group_uses answers latest
    last_entry latest_start rows_of_entries boundary_of close_groups place sorted
    completed_boundaries above above_all answer_parents common recovered_poison collect_chain_unsafe
    judge_all climb update ids any tool_uses tool_results
analyze-keeps_tail_out_example =
    analyze-keeps_tail_out never as_listed none failed sick 2 4 (entry 4 (some 3) assistant true)
      (entry 4 (some 3) assistant true) analyzed refl refl refl refl (omega arith)

-- The third row is not in a complete message yet.
abbrev waiting : Health
waiting = record {
  uuid_lines = (1, 1) ∷ (2, 2) ∷ (3, 3) ∷ [];
  unsafe_uuids = [];
  tail = record {
    first_poison = none;
    last_poison = none;
    poison = [];
    first_unsafe = none;
    reason = none;
    recovery = none;
  };
  targets = (1, 1) ∷ (2, 2) ∷ [];
  chain_uuids = 1 ∷ 2 ∷ 3 ∷ [];
  recovered = [];
}

resolve_target-nearest_example :
    (is_end_of_entry waiting.targets 2 ≡ true)
    × (is_uuid_safe waiting (some 2) ≡ true)
    × (line_of waiting 2 ≤ line_of waiting 3)
    × (line_of waiting 1 ≤ line_of waiting 2)
unfolding lookup contains line_of resolve_target candidate_targets latest_line at_boundary
resolve_target-nearest_example =
    resolve_target-nearest waiting (λ u. none) 3 2 1 1 refl refl refl refl refl refl (omega arith)
