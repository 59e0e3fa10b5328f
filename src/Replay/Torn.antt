-- ===== src/Replay/Torn.antt =====
-- src/obs_agent/jsonl_replay.py: a final record that a power cut has torn. Whether bytes decode to JSON,
-- and whether a line is white space to `str.strip`, are arguments.
use recursive_harness_builde.Prelude.{
  ℕ, ◌+◌, ◌-◌, Option, none, some, Bool, ◌&&◌, ◌||◌, not, List, [], ◌∷◌, ◌==◌, nat_eq, length, take,
  drop, is_empty, contains, newline, split_on, split_last, if◌then◌else◌,
}

abbrev pub is_blank : ℕ → Bool
is_blank = contains (32 ∷ 9 ∷ 13 ∷ 10 ∷ [])

abbrev pub is_pad : ℕ → Bool
is_pad b = b == 0 || is_blank b

-- `bs.rstrip(...)` and `bs.lstrip(...)` for the bytes that `p` names.
unfoldable pub rstrip : (ℕ → Bool) → List ℕ → List ℕ
rstrip p [] = []
rstrip p (b ∷ bs) = let rest = rstrip p bs in if is_empty rest && p b then [] else b ∷ rest

unfoldable pub lstrip : (ℕ → Bool) → List ℕ → List ℕ
lstrip p [] = []
lstrip p (b ∷ bs) = if p b then lstrip p bs else b ∷ bs

-- The offset of the last line, and that line.
abbrev pub last_line : List ℕ → ℕ × List ℕ
last_line bs = elim (split_last bs) [ none ↦ (0, bs) | some (xs, ys) ↦ (length xs + 1, ys) ]

abbrev pub padding_start : List ℕ → List ℕ → Option ℕ
padding_start stripped rest =
    if is_empty (rstrip is_blank (lstrip is_blank rest))
    then none
    else some (length stripped + (length rest - length (lstrip is_blank rest)))

abbrev pub torn_after : (List ℕ → Bool) → List ℕ → List ℕ → Option ℕ
torn_after is_json original stripped =
    let (cut, line) = last_line stripped in
    if not (is_json line)
    then some cut
    else padding_start stripped (drop (length stripped) original)

-- `_torn_tail_start`
unfoldable pub torn_tail_start : (List ℕ → Bool) → List ℕ → Option ℕ
torn_tail_start is_json original =
    if is_empty (rstrip is_pad original)
    then (if is_empty original then none else some 0)
    else torn_after is_json original (rstrip is_pad original)

abbrev pub cut_at : Option ℕ → List ℕ → List ℕ
cut_at none original = original
cut_at (some cut) original = take cut original

-- What is left of the file after the torn record is cut off.
unfoldable pub body_of : (List ℕ → Bool) → List ℕ → List ℕ
body_of is_json original = cut_at (torn_tail_start is_json original) original

-- The lines of `_decode_complete_lines` that its callers read: those that are not blank.
unfoldable pub solid_lines : (List ℕ → Bool) → List (List ℕ) → List (List ℕ)
solid_lines is_white [] = []
solid_lines is_white (line ∷ lines) =
    let rest = solid_lines is_white lines in if is_white line then rest else line ∷ rest

unfoldable pub records_of : (is_json is_white : List ℕ → Bool) → List ℕ → List (List ℕ)
records_of is_json is_white original =
    solid_lines is_white (split_on newline (body_of is_json original))
