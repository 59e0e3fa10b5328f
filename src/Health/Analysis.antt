-- ===== src/Health/Analysis.antt =====
-- src/obs_agent/jsonl_health.py: `_analyze_jsonl_path_uncached` from the entries of the file on, and the questions
-- that are asked of a `JsonlSessionHealth`.
use recursive_harness_builde.Prelude.{
  ℕ, Option, none, some, is_some, or_else, Bool, false, ◌&&◌, ◌||◌, not, List, [], ◌∷◌, ◌++◌, ◌==◌,
  any, contains, lookup, leb, ltb, nat_eq, if◌then◌else◌,
}
use recursive_harness_builde.Replay.Rows.{Row, Result, and_then, ok, keys}
use recursive_harness_builde.Replay.Select.{is_assistant, is_user, select_replay_entries}
use recursive_harness_builde.Replay.Overlays.{same_parent}
use recursive_harness_builde.Health.Chains.{Parents, collect_chain_unsafe}
use recursive_harness_builde.Health.Entries.{
  Entry, EntryMap, TailReason, poisoned_tail, put_entries, is_error, is_poison, is_real_assistant,
  has_tool_use, tail_reason,
}
use recursive_harness_builde.Health.Boundaries.{Targets, Completed, completed_boundaries}
use recursive_harness_builde.Health.Recovered.{recovered_poison}

unfoldable pub parents_of : EntryMap → Parents
parents_of [] = []
parents_of ((u, e) ∷ d) = (u, e.row.parent) ∷ parents_of d

unfoldable pub lines_of : EntryMap → List (ℕ × ℕ)
lines_of [] = []
lines_of ((u, e) ∷ d) = (u, e.line_no) ∷ lines_of d

unfoldable pub map_rows : EntryMap → List Row
map_rows [] = []
map_rows ((u, e) ∷ d) = e.row ∷ map_rows d

-- The entries of the chain that was selected.
unfoldable pub active : List ℕ → EntryMap → List Entry
active uuids [] = []
active uuids ((u, e) ∷ d) = let rest = active uuids d in if contains uuids u then e ∷ rest else rest

unfoldable pub uuids_where : (Entry → Bool) → List Entry → List ℕ
uuids_where p [] = []
uuids_where p (e ∷ es) =
    let rest = uuids_where p es in
    elim e.row.uuid as (λ o. List ℕ) [ none ↦ rest | some u ↦ if p e then u ∷ rest else rest ]

unfoldable pub without : List ℕ → List ℕ → List ℕ
without us [] = []
without us (v ∷ vs) = let rest = without us vs in if contains us v then rest else v ∷ rest

unfoldable pub entries_outside : List ℕ → List Entry → List Entry
entries_outside us [] = []
entries_outside us (e ∷ es) =
    let rest = entries_outside us es in
    let is_in = elim e.row.uuid as (λ o. Bool) [ none ↦ false | some u ↦ contains us u ] in
    if is_in then rest else e ∷ rest

unfoldable pub last_of_entries : Option Entry → List Entry → Option Entry
last_of_entries found [] = found
last_of_entries found (e ∷ es) = last_of_entries (some e) es

unfoldable pub real_assistants : List Entry → List Entry
real_assistants [] = []
real_assistants (e ∷ es) =
    let rest = real_assistants es in if is_real_assistant e then e ∷ rest else rest

-- `entries[entries.index(e) + 1:]` and `entries[:entries.index(e)]`; no line has two entries.
unfoldable pub entries_after : ℕ → List Entry → List Entry
entries_after n [] = []
entries_after n (e ∷ es) = let rest = entries_after n es in if e.line_no == n then es else rest

unfoldable pub entries_before : ℕ → List Entry → List Entry
entries_before n [] = []
entries_before n (e ∷ es) =
    let rest = entries_before n es in if e.line_no == n then [] else e ∷ rest

-- `pending_tool_groups`
unfoldable pub pending_groups : Targets → List Entry → List (Option ℕ)
pending_groups targets [] = []
pending_groups targets (e ∷ es) =
    let rest = pending_groups targets es in
    let is_target = elim e.row.uuid as (λ o. Bool) [
      | none ↦ false
      | some u ↦ is_some (lookup u targets)
    ] in
    if has_tool_use e && not is_target then e.row.message_id ∷ rest else rest

abbrev pub is_tail : List (Option ℕ) → Entry → Bool
is_tail pending e =
    is_some e.row.uuid
    && ((is_assistant e.row.kind || is_user e.row.kind)
        && not (
            is_real_assistant e
            && (e.has_text
                && (not (has_tool_use e) && not (any (same_parent e.row.message_id) pending)))))

unfoldable pub first_tail : List (Option ℕ) → List Entry → Option Entry
first_tail pending [] = none
first_tail pending (e ∷ es) =
    let rest = first_tail pending es in if is_tail pending e then some e else rest

pub record Tail : Type 0 where
  pub first_poison : Option Entry
  pub last_poison : Option Entry
  pub poison : List ℕ
  pub first_unsafe : Option Entry
  pub reason : Option TailReason
  pub recovery : Option Entry

unfoldable pub last_plain_user : Option Entry → List Entry → Option Entry
last_plain_user found [] = found
last_plain_user found (e ∷ es) =
    last_plain_user
      (if is_user e.row.kind && (is_some e.row.uuid && not (is_error e)) then some e else found) es

-- `_choose_safe_recovery`, of the entries before the poisoned one.
unfoldable pub choose_safe_recovery : (List Row → Bool) → List Entry → Option Entry
choose_safe_recovery is_completed candidates =
    or_else (last_of_entries none (completed_boundaries is_completed candidates).boundaries)
      (last_plain_user none candidates)

abbrev pub id_list : Option ℕ → List ℕ
id_list none = []
id_list (some u) = u ∷ []

-- One round of the loop over `poison_search`.
abbrev pub poison_step : (List Row → Bool) → List Entry → Entry → Tail → Tail
poison_step is_completed entries e t =
    if is_poison e
    then (record {
      first_poison = or_else t.first_poison (some e);
      last_poison = some e;
      poison = id_list e.row.uuid ++ t.poison;
      first_unsafe = or_else t.first_unsafe (some e);
      reason = if is_some t.first_unsafe then t.reason else some poisoned_tail;
      recovery =
          or_else t.recovery (choose_safe_recovery is_completed (entries_before e.line_no entries));
    })
    else t

unfoldable pub poison_loop : (List Row → Bool) → List Entry → List Entry → Tail → Tail
poison_loop is_completed entries [] t = t
poison_loop is_completed entries (e ∷ es) t =
    poison_loop is_completed entries es (poison_step is_completed entries e t)

abbrev pub tail_at : Option Entry → Option Entry → Tail
tail_at last_complete tail = record {
  first_poison = none;
  last_poison = none;
  poison = [];
  first_unsafe = tail;
  reason = elim tail [ none ↦ none | some e ↦ some (tail_reason e) ];
  recovery = elim tail [ none ↦ none | some e ↦ last_complete ];
}

-- The tail after the last complete entry, and the poison after it.
unfoldable pub tail_of : (List Row → Bool) → List Entry → Completed → Tail
tail_of is_completed entries c = elim (last_of_entries none c.boundaries) [
  | some b ↦ poison_loop is_completed entries (entries_after b.line_no entries) (
      tail_at (some b)
        (first_tail (pending_groups c.targets entries) (entries_after b.line_no entries)))
  | none ↦ elim (last_of_entries none (real_assistants entries)) [
    | some a ↦
        poison_loop is_completed entries (entries_after a.line_no entries) (tail_at none none)
    | none ↦ poison_loop is_completed entries entries (tail_at none none)
  ]
]

-- Every entry from the unsafe tail on counts as poison.
abbrev pub tail_poison : Tail → List Entry → List ℕ
tail_poison t entries = elim t.first_unsafe [
  | none ↦ t.poison
  | some f ↦ uuids_where (λ e. leb f.line_no e.line_no) entries ++ t.poison
]

pub record Health : Type 0 where
  pub uuid_lines : List (ℕ × ℕ)
  pub unsafe_uuids : List ℕ
  pub tail : Tail
  pub targets : Targets
  pub chain_uuids : List ℕ
  pub recovered : List ℕ

-- The health of the entries `entries`, out of all those of the file, `d`.
unfoldable pub health_of : (List Row → Bool) → EntryMap → List ℕ → List Entry → Health
health_of is_completed d chain entries =
    let all_poison = uuids_where is_poison entries in
    let recovered =
      recovered_poison (completed_boundaries is_completed entries).targets (parents_of d) all_poison
        entries in
    let descendants = collect_chain_unsafe (parents_of d) (without recovered all_poison) in
    let c = completed_boundaries is_completed (entries_outside descendants entries) in
    let t = tail_of is_completed entries c in
    record {
      uuid_lines = lines_of d;
      unsafe_uuids = collect_chain_unsafe (parents_of d) (tail_poison t entries) ++ all_poison;
      tail = t;
      targets = c.targets;
      chain_uuids = chain;
      recovered = recovered;
    }

-- `_analyze_jsonl_path_uncached`
unfoldable pub analyze :
    (List Row → Bool) → (List ℕ → List ℕ) → Option ℕ → List Entry → Result Health
analyze is_completed spread branch entries =
    let d = put_entries [] entries in
    and_then (select_replay_entries spread false branch (map_rows d))
      (λ selected. ok (health_of is_completed d (keys selected) (active (keys selected) d)))

-- `needs_recovery`
abbrev pub needs_recovery : Health → Bool
needs_recovery h = is_some h.tail.first_unsafe && is_some h.tail.recovery

-- `is_uuid_safe`
abbrev pub is_uuid_safe : Health → Option ℕ → Bool
is_uuid_safe h none = false
is_uuid_safe h (some u) = is_some (lookup u h.uuid_lines) && not (contains h.unsafe_uuids u)

unfoldable pub any_later : List (ℕ × ℕ) → ℕ → List ℕ → Bool
any_later lines n [] = false
any_later lines n (u ∷ us) =
    let rest = any_later lines n us in
    (elim (lookup u lines) as (λ o. Bool) [ none ↦ false | some m ↦ ltb n m ]) || rest

-- `is_stale_session_head`
unfoldable pub is_stale_session_head : Health → Option ℕ → Bool
is_stale_session_head h none = false
is_stale_session_head h (some u) =
    contains h.chain_uuids u
    && (is_uuid_safe h (some u) && (elim (lookup u h.uuid_lines) [
      | none ↦ false
      | some n ↦ any_later h.uuid_lines n h.recovered
    ]))
