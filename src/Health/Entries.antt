-- ===== src/Health/Entries.antt =====
-- src/obs_agent/jsonl_health.py: the entries of a transcript. An entry has the row that the replay reads, and
-- what `_parse_entry` finds in the texts of its message.
use recursive_harness_builde.Prelude.{
  ℕ, none, some, is_some, Bool, ◌&&◌, ◌||◌, not, List, [], ◌∷◌, is_empty, insert, lookup, nat_eq,
  if◌then◌else◌,
}
use recursive_harness_builde.Replay.Rows.{Kind, Row}
use recursive_harness_builde.Replay.Select.{is_assistant, is_user, tool_uses}

pub record Entry : Type 0 where
  pub line_no : ℕ
  pub row : Row
  pub role : Kind
  pub has_error : Bool
  pub is_too_long : Bool
  pub has_text : Bool
  pub has_content : Bool
  pub is_answered : Bool

-- `entry.is_error`: an API error, an error text, or the CLI's "Prompt is too long".
abbrev pub is_error : Entry → Bool
is_error e = e.row.is_api_error || (e.has_error || e.is_too_long)

abbrev pub has_tool_use : Entry → Bool
has_tool_use e = not (is_empty (tool_uses e.row.content))

-- `_is_real_assistant`
abbrev pub is_real_assistant : Entry → Bool
is_real_assistant e =
    is_assistant e.row.kind
    && (is_assistant e.role && (not (is_error e) && (not e.row.is_synthetic && is_some e.row.uuid)))

-- `_is_poison`
abbrev pub is_poison : Entry → Bool
is_poison e = is_some e.row.uuid && (e.is_too_long || (e.row.is_synthetic && is_error e))

pub data TailReason : Type 0 where
  poisoned_tail : TailReason
  dangling_user_tail : TailReason
  incomplete_tool_use_tail : TailReason
  empty_assistant_tail : TailReason
  incomplete_tail : TailReason

-- `_tail_reason`
abbrev pub tail_reason : Entry → TailReason
tail_reason e =
    if is_poison e
    then poisoned_tail
    else (if is_user e.row.kind || is_user e.role
        then dangling_user_tail
        else (if is_real_assistant e && has_tool_use e
            then incomplete_tool_use_tail
            else (if is_real_assistant e && not e.has_text
                then empty_assistant_tail
                else incomplete_tail)))

abbrev pub with_line : ℕ → Entry → Entry
with_line n e = record {
  line_no = n;
  row = e.row;
  role = e.role;
  has_error = e.has_error;
  is_too_long = e.is_too_long;
  has_text = e.has_text;
  has_content = e.has_content;
  is_answered = e.is_answered;
}

abbrev pub EntryMap : Type 0
EntryMap = List (ℕ × Entry)

-- The latest entry of an identifier, at the line of the first.
abbrev pub put_entry : EntryMap → Entry → EntryMap
put_entry d e = elim e.row.uuid [
  | none ↦ d
  | some u ↦ insert u (elim (lookup u d) [ none ↦ e | some old ↦ with_line old.line_no e ]) d
]

unfoldable pub put_entries : EntryMap → List Entry → EntryMap
put_entries d [] = d
put_entries d (e ∷ es) = put_entries (put_entry d e) es
