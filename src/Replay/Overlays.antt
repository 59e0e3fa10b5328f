-- ===== src/Replay/Overlays.antt =====
-- src/obs_agent/jsonl_replay.py: `prepare_session_replay`, the rows that it appends so that a reader that
-- follows parents alone finds the whole selection.
use recursive_harness_builde.Prelude.{
  ℕ, suc, ◌+◌, Option, none, some, Bool, true, false, ◌||◌, List, [], ◌∷◌, ◌++◌, ◌==◌, nat_eq, leb,
  if◌then◌else◌,
}
use recursive_harness_builde.Replay.Rows.{Row, RowMap}

abbrev pub same_parent : Option ℕ → Option ℕ → Bool
same_parent none none = true
same_parent none (some b) = false
same_parent (some a) none = false
same_parent (some a) (some b) = a == b

-- `patched`
abbrev pub with_parent : Option ℕ → Row → Row
with_parent p r = record {
  uuid = r.uuid;
  parent = p;
  kind = r.kind;
  is_sidechain = r.is_sidechain;
  timestamp = r.timestamp;
  message_id = r.message_id;
  content = r.content;
  is_api_error = r.is_api_error;
  is_synthetic = r.is_synthetic;
}

-- A row that stays as it is: `index <= legacy_boundary`, or at the repair limit or after it.
abbrev pub is_opaque : Option ℕ → Option ℕ → ℕ → Bool
is_opaque boundary limit index =
    (elim boundary [ none ↦ false | some b ↦ leb index b ])
    || (elim limit [ none ↦ false | some l ↦ leb l index ])

abbrev pub is_first : Option ℕ → ℕ → Bool
is_first boundary index = elim boundary [ none ↦ false | some b ↦ index == b + 1 ]

-- The loop that makes `overlays`, from the row at `index` on.
unfoldable pub relink : Option ℕ → Option ℕ → ℕ → Option ℕ → RowMap → RowMap
relink boundary limit index parent [] = []
relink boundary limit index parent ((u, r) ∷ rows) =
    let skip = is_opaque boundary limit index in
    let here = if is_first boundary index then r.parent else parent in
    let rest = relink boundary limit (suc index) (if skip then parent else some u) rows in
    if skip
    then rest
    else (if same_parent r.parent here then rest else (u, with_parent here r) ∷ rest)

unfoldable pub rows_of : RowMap → List Row
rows_of [] = []
rows_of ((u, r) ∷ d) = r ∷ rows_of d

-- The rows of the transcript after a preparation whose selection is complete.
unfoldable pub repaired : List Row → RowMap → List Row
repaired rows selected = rows ++ rows_of (relink none none 0 none selected)
