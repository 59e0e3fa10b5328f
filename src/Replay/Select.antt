-- ===== src/Replay/Select.antt =====
-- src/obs_agent/jsonl_replay.py: `select_replay_entries`. The order in which Python iterates the set of
-- tool calls is an argument, `spread`.
use recursive_harness_builde.Prelude.{
  ℕ, suc, Option, none, some, is_some, Bool, true, false, ◌&&◌, ◌||◌, not, List, [], ◌∷◌, ◌++◌,
  ◌==◌, nat_eq, contains, any, lookup, length, leb, ltb, if◌then◌else◌,
}
use recursive_harness_builde.Replay.Rows.{
  Kind, user, assistant, other, Block, tool_use, tool_result, text, Row, target_missing,
  ambiguous_results, incomplete_round, error_row, Result, ok, refused, and_then, RowMap, keys, keep,
  effective, walk,
}

abbrev pub is_assistant : Kind → Bool
is_assistant assistant = true
is_assistant k = false

abbrev pub is_user : Kind → Bool
is_user user = true
is_user k = false

-- The types of row that a replay may end with.
abbrev pub is_replayed : Kind → Bool
is_replayed other = false
is_replayed k = true

unfoldable pub tool_uses : List Block → List ℕ
tool_uses [] = []
tool_uses (tool_use t ∷ bs) = t ∷ tool_uses bs
tool_uses (tool_result t ∷ bs) = tool_uses bs
tool_uses (text ∷ bs) = tool_uses bs

unfoldable pub tool_results : List Block → List ℕ
tool_results [] = []
tool_results (tool_use t ∷ bs) = tool_results bs
tool_results (tool_result t ∷ bs) = t ∷ tool_results bs
tool_results (text ∷ bs) = tool_results bs

unfoldable pub all_uses : RowMap → List ℕ
all_uses [] = []
all_uses ((u, r) ∷ d) = tool_uses r.content ++ all_uses d

-- `result_ids`
unfoldable pub all_results : RowMap → List ℕ
all_results [] = []
all_results ((u, r) ∷ d) = tool_results r.content ++ all_results d

-- `max(leaves, ...)`: the latest timestamp, and of equals the later row.
unfoldable pub newest : Option (ℕ × Row) → RowMap → Option (ℕ × Row)
newest best [] = best
newest none (x ∷ d) =
    newest (if not x.1.is_sidechain && is_replayed x.1.kind then some x else none) d
newest (some b) (x ∷ d) =
    newest
      (some (
        if not x.1.is_sidechain && is_replayed x.1.kind && leb b.1.timestamp x.1.timestamp
        then x
        else b))
      d

-- The row to end at: the one asked for, or the newest leaf.
abbrev pub goal_of : Option ℕ → RowMap → Option ℕ
goal_of (some t) d = some t
goal_of none d = elim (newest none d) [ none ↦ none | some x ↦ some x.0 ]

-- The rows up to the cutoff, the target.
unfoldable pub until : ℕ → RowMap → RowMap
until t [] = []
until t ((u, r) ∷ d) = let rest = until t d in if u == t then (u, r) ∷ [] else (u, r) ∷ rest

abbrev pub id_of : Row → List ℕ
id_of r = elim (is_assistant r.kind) [
  | true ↦ elim r.message_id [ none ↦ [] | some m ↦ m ∷ [] ]
  | false ↦ []
]

unfoldable pub message_ids : RowMap → List ℕ → List ℕ
message_ids d [] = []
message_ids d (u ∷ us) = elim (lookup u d) [
  | none ↦ message_ids d us
  | some r ↦ id_of r ++ message_ids d us
]

-- An assistant row of one of the chosen messages.
abbrev pub in_group : List ℕ → ℕ × Row → Bool
in_group ids x =
    not x.1.is_sidechain
    && is_assistant x.1.kind
    && (elim x.1.message_id [ none ↦ false | some m ↦ contains ids m ])

unfoldable pub repeat_for : ℕ → ℕ → List ℕ → List ℕ
repeat_for tool u [] = []
repeat_for tool u (t ∷ ts) = let rest = repeat_for tool u ts in if t == tool then u ∷ rest else rest

-- `candidates[tool_id]`: one entry for each result of the call in a user row.
unfoldable pub candidates : ℕ → RowMap → List ℕ
candidates tool [] = []
candidates tool ((u, r) ∷ d) =
    let rest = candidates tool d in
    if not r.is_sidechain && is_user r.kind
    then repeat_for tool u (tool_results r.content) ++ rest
    else rest

unfoldable pub on_branch : List ℕ → List ℕ → List ℕ
on_branch chosen [] = []
on_branch chosen (u ∷ us) =
    let rest = on_branch chosen us in if contains chosen u then u ∷ rest else rest

-- What one tool call adds to the chosen rows.
unfoldable pub answer : ℕ → List ℕ → List ℕ → Result (List ℕ)
answer tool chosen matches =
    let branch = on_branch chosen matches in
    if length branch == 1
    then ok branch
    else (if ltb 1 (length branch) || ltb 1 (length matches)
        then refused (ambiguous_results tool)
        else ok matches)

unfoldable pub resolve : RowMap → List ℕ → List ℕ → Result (List ℕ)
resolve early [] chosen = ok chosen
resolve early (tool ∷ tools) chosen =
    and_then (answer tool chosen (candidates tool early))
      (λ more. resolve early tools (more ++ chosen))

unfoldable pub all_in : List ℕ → List ℕ → Bool
all_in ids [] = true
all_in ids (t ∷ ts) = contains ids t && all_in ids ts

abbrev pub is_faulty : ℕ × Row → Bool
is_faulty x = x.1.is_api_error || x.1.is_synthetic

unfoldable pub checked : Bool → List ℕ → RowMap → Result RowMap
checked require_complete tools selected =
    if require_complete && not (all_in (all_results selected) tools)
    then refused incomplete_round
    else (if require_complete && any is_faulty selected then refused error_row else ok selected)

-- The assistant rows, up to the target, of the messages on the chain.
abbrev pub group_of : RowMap → ℕ → List ℕ → RowMap
group_of d target chain = keep (in_group (message_ids d chain)) (until target d)

-- The rows of the chain, those of its messages, and the results of their tool calls.
unfoldable pub gather : (List ℕ → List ℕ) → Bool → RowMap → ℕ → List ℕ → Result RowMap
gather spread require_complete d target chain =
    let grouped = group_of d target chain in
    and_then (resolve (until target d) (spread (all_uses grouped)) (keys grouped ++ chain))
      (λ chosen. checked require_complete (all_uses grouped) (keep (λ x. contains chosen x.0) d))

abbrev pub select_at : (List ℕ → List ℕ) → Bool → RowMap → ℕ → Result RowMap
select_at spread require_complete d target =
    if is_some (lookup target d)
    then and_then (walk (suc (length d)) d (some target) [])
        (gather spread require_complete d target)
    else refused (target_missing target)

abbrev pub select_of : (List ℕ → List ℕ) → Bool → Option ℕ → RowMap → Result RowMap
select_of spread require_complete target [] = ok []
select_of spread require_complete target (x ∷ d) = elim (goal_of target (x ∷ d)) [
  | none ↦ ok []
  | some t ↦ select_at spread require_complete (x ∷ d) t
]

-- `select_replay_entries`
unfoldable pub select_replay_entries :
    (List ℕ → List ℕ) → Bool → Option ℕ → List Row → Result RowMap
select_replay_entries spread require_complete target rows =
    select_of spread require_complete target (effective rows)
