-- ===== src/Health/Boundaries.antt =====
-- src/obs_agent/jsonl_health.py: `_completed_boundaries`, the entries at which a message or a tool round is
-- complete. Whether a receipt confirms that a message ended (`has_terminal_completion`) is an argument.
use recursive_harness_builde.Prelude.{
  ℕ, Option, none, some, is_some, or_else, Bool, ◌&&◌, ◌||◌, List, [], ◌∷◌, ◌++◌, any, is_empty,
  insert, lookup, ltb, leb, nat_eq, if◌then◌else◌,
}
use recursive_harness_builde.Replay.Rows.{Row}
use recursive_harness_builde.Replay.Select.{is_user, tool_uses, tool_results}
use recursive_harness_builde.Health.Entries.{Entry, is_real_assistant}

abbrev pub Groups : Type 0
Groups = List (ℕ × List Entry)

abbrev pub Results : Type 0
Results = List (ℕ × Entry)

-- `targets`: the boundary of each entry that stands in a complete group.
abbrev pub Targets : Type 0
Targets = List (ℕ × ℕ)

unfoldable pub add_results : Entry → List ℕ → Results → Results
add_results e [] results = results
add_results e (tool ∷ tools) results = add_results e tools (insert tool e results)

-- `results`: the last entry with a result of each tool call.
unfoldable pub results_of : Results → List Entry → Results
results_of results [] = results
results_of results (e ∷ es) = results_of (add_results e (tool_results e.row.content) results) es

unfoldable pub append_to : ℕ → Entry → Groups → Groups
append_to k e [] = (k, e ∷ []) ∷ []
append_to k e ((j, es) ∷ groups) =
    if nat_eq.eqb j k then (j, es ++ (e ∷ [])) ∷ groups else (j, es) ∷ append_to k e groups

abbrev pub add_to_group : Entry → Groups → Groups
add_to_group e groups = elim (or_else e.row.message_id e.row.uuid) [
  | none ↦ groups
  | some k ↦ append_to k e groups
]

-- `groups`: the rows of each message.
unfoldable pub groups_of : Groups → List Entry → Groups
groups_of groups [] = groups
groups_of groups (e ∷ es) =
    groups_of (if is_real_assistant e then add_to_group e groups else groups) es

-- The plain messages of a user.
unfoldable pub user_boundaries : List Entry → List Entry
user_boundaries [] = []
user_boundaries (e ∷ es) =
    let rest = user_boundaries es in
    if is_user e.row.kind && (is_some e.row.uuid && is_empty (tool_results e.row.content))
    then e ∷ rest
    else rest

abbrev pub target : Entry → Entry → Targets → Targets
target boundary e targets = elim e.row.uuid [
  | none ↦ targets
  | some u ↦ elim boundary.row.uuid [ none ↦ targets | some b ↦ insert u b targets ]
]

unfoldable pub target_all : Entry → List Entry → Targets → Targets
target_all boundary [] targets = targets
target_all boundary (e ∷ es) targets = target_all boundary es (target boundary e targets)

unfoldable pub user_targets : List Entry → Targets → Targets
user_targets [] targets = targets
user_targets (e ∷ es) targets = user_targets es (target e e targets)

unfoldable pub group_uses : List Entry → List ℕ
group_uses [] = []
group_uses (e ∷ es) = tool_uses e.row.content ++ group_uses es

-- `[results[t] for t in tool_ids]`, where each call has a result.
unfoldable pub answers : Results → List ℕ → Option (List Entry)
answers results [] = some []
answers results (tool ∷ tools) = elim (lookup tool results) [
  | none ↦ none
  | some e ↦ elim (answers results tools) [ none ↦ none | some es ↦ some (e ∷ es) ]
]

-- `max(members, key=line_no)`
unfoldable pub latest : Entry → List Entry → Entry
latest best [] = best
latest best (e ∷ es) = latest (if ltb best.line_no e.line_no then e else best) es

unfoldable pub last_entry : Entry → List Entry → Entry
last_entry e [] = e
last_entry e (f ∷ es) = last_entry f es

-- `latest_group_start`
unfoldable pub latest_start : ℕ → Groups → ℕ
latest_start n [] = n
latest_start n ((k, []) ∷ groups) = latest_start n groups
latest_start n ((k, e ∷ es) ∷ groups) =
    latest_start (if ltb n e.line_no then e.line_no else n) groups

unfoldable pub rows_of_entries : List Entry → List Row
rows_of_entries [] = []
rows_of_entries (e ∷ es) = e.row ∷ rows_of_entries es

-- A message without tool calls is complete where a later one has begun, or its end is known.
abbrev pub is_ended : (List Row → Bool) → ℕ → Entry → List Entry → Bool
is_ended is_completed start e es =
    any (λ x. x.has_content) (e ∷ es)
    && (ltb (last_entry e es).line_no start
        || (any (λ x. x.is_answered) (e ∷ es) || is_completed (rows_of_entries (e ∷ es))))

-- The boundary of one group, and the members that it closes.
unfoldable pub boundary_of :
    (List Row → Bool) → Results → ℕ → Entry → List Entry → Option (Entry × List Entry)
boundary_of is_completed results start e es =
    if is_empty (group_uses (e ∷ es))
    then (if is_ended is_completed start e es then some (last_entry e es, e ∷ es) else none)
    else (elim (answers results (group_uses (e ∷ es))) [
      | none ↦ none
      | some rs ↦ some (latest e (es ++ rs), e ∷ (es ++ rs))
    ])

pub record Completed : Type 0 where
  pub boundaries : List Entry
  pub targets : Targets

abbrev pub close_group : (List Row → Bool) → Results → ℕ → List Entry → Completed → Completed
close_group is_completed results start [] c = c
close_group is_completed results start (e ∷ es) c =
    elim (boundary_of is_completed results start e es) [
      | none ↦ c
      | some (b, members) ↦ record {
        boundaries = c.boundaries ++ (b ∷ []);
        targets = target_all b members c.targets;
      }
    ]

unfoldable pub close_groups : (List Row → Bool) → Results → ℕ → Groups → Completed → Completed
close_groups is_completed results start [] c = c
close_groups is_completed results start ((k, es) ∷ groups) c =
    close_groups is_completed results start groups (close_group is_completed results start es c)

-- A place in a list ordered by lines, behind those of the same line.
unfoldable pub place : Entry → List Entry → List Entry
place e [] = e ∷ []
place e (f ∷ es) =
    let rest = place e es in if leb f.line_no e.line_no then f ∷ rest else e ∷ (f ∷ es)

unfoldable pub sorted : List Entry → List Entry → List Entry
sorted done [] = done
sorted done (e ∷ es) = sorted (place e done) es

-- `_completed_boundaries`
unfoldable pub completed_boundaries : (List Row → Bool) → List Entry → Completed
completed_boundaries is_completed es =
    let groups = groups_of [] es in
    let c = close_groups is_completed (results_of [] es) (latest_start 0 groups) groups (record {
      boundaries = user_boundaries es;
      targets = user_targets (user_boundaries es) [];
    }) in
    record { boundaries = sorted [] c.boundaries; targets = c.targets }
