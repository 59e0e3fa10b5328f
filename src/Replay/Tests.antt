-- ===== src/Replay/Tests.antt =====
-- src/obs_agent/jsonl_replay.py: a transcript with two tool calls in parallel, one with a tie between results, and a
-- file with a torn record; and the theorems at them.
use recursive_harness_builde.Prelude.{
  ℕ, suc, ◌≡◌, refl, ap, is_empty, ◌≢◌, none, some, Bool, true, false, ◌&&◌, List, [], ◌∷◌, ◌++◌,
  ◌==◌, nat_eq, contains, any, lookup, insert, length,
}
use recursive_harness_builde.Replay.Torn.{rstrip, lstrip, is_blank, records_of}
use recursive_harness_builde.Replay.Tails.{written}
use recursive_harness_builde.Replay.Whole.{records_of_written}
use recursive_harness_builde.Replay.Rows.{
  user, assistant, tool_use, tool_result, text, Row, RowMap, out_of_fuel, ambiguous_results, Result,
  ok, refused, and_then, keys, keep, put_all, effective, walk,
}
use recursive_harness_builde.Replay.Samples.{row}
use recursive_harness_builde.Replay.Select.{
  is_faulty, tool_uses, tool_results, all_uses, all_results, newest, until, message_ids, repeat_for,
  candidates, on_branch, answer, resolve, all_in, checked, gather, select_replay_entries,
}
use recursive_harness_builde.Replay.Overlays.{relink, rows_of, repaired}
use recursive_harness_builde.Replay.Ends.{select_ends}
use recursive_harness_builde.Replay.Complete.{select-IsWhole}
use recursive_harness_builde.Replay.Chain.{last_of}
use recursive_harness_builde.Replay.Repair.{
  without_parents, without_parents-repaired, walk-repaired,
}

abbrev as_listed : List ℕ → List ℕ
as_listed tools = tools

-- The message 50 calls two tools; the result of the first is not on the chain of the last row.
abbrev parallel : List Row
parallel =
    row (some 1) none user none (text ∷ [])
    ∷ row (some 2) (some 1) assistant (some 50) (tool_use 7 ∷ [])
    ∷ row (some 3) (some 2) assistant (some 50) (tool_use 8 ∷ [])
    ∷ row (some 4) (some 2) user none (tool_result 7 ∷ [])
    ∷ row (some 5) (some 3) user none (tool_result 8 ∷ [])
    ∷ row (some 6) (some 5) assistant (some 51) (text ∷ [])
    ∷ []

abbrev selection : RowMap
selection =
    (1, row (some 1) none user none (text ∷ []))
    ∷ (2, row (some 2) (some 1) assistant (some 50) (tool_use 7 ∷ []))
    ∷ (3, row (some 3) (some 2) assistant (some 50) (tool_use 8 ∷ []))
    ∷ (4, row (some 4) (some 2) user none (tool_result 7 ∷ []))
    ∷ (5, row (some 5) (some 3) user none (tool_result 8 ∷ []))
    ∷ (6, row (some 6) (some 5) assistant (some 51) (text ∷ []))
    ∷ []

selected_parallel : select_replay_entries as_listed true none parallel ≡ ok selection
unfolding select_replay_entries effective put_all insert newest lookup walk contains and_then gather
    message_ids until keep all_uses tool_uses all_results tool_results keys resolve answer on_branch
    candidates repeat_for checked all_in any
selected_parallel = refl

-- The rows of the second selection, with their new parents.
abbrev relinked : RowMap
relinked =
    (1, row (some 1) none user none (text ∷ []))
    ∷ (2, row (some 2) (some 1) assistant (some 50) (tool_use 7 ∷ []))
    ∷ (3, row (some 3) (some 2) assistant (some 50) (tool_use 8 ∷ []))
    ∷ (4, row (some 4) (some 3) user none (tool_result 7 ∷ []))
    ∷ (5, row (some 5) (some 4) user none (tool_result 8 ∷ []))
    ∷ (6, row (some 6) (some 5) assistant (some 51) (text ∷ []))
    ∷ []

selected_again :
    select_replay_entries as_listed true none (repaired parallel selection) ≡ ok relinked
unfolding select_replay_entries effective put_all insert newest lookup walk contains and_then gather
    message_ids until keep all_uses tool_uses all_results tool_results keys resolve answer on_branch
    candidates repeat_for checked all_in any repaired relink rows_of
selected_again = refl

-- Two rows hold a result of the call 7, one of them also that of the call 8.
abbrev tied : List Row
tied =
    row (some 1) none user none (text ∷ [])
    ∷ row (some 2) (some 1) assistant (some 50) (tool_use 7 ∷ tool_use 8 ∷ [])
    ∷ row (some 3) (some 2) user none (tool_result 7 ∷ tool_result 8 ∷ [])
    ∷ row (some 4) (some 2) user none (tool_result 7 ∷ [])
    ∷ row (some 5) (some 2) assistant (some 51) (text ∷ [])
    ∷ []

abbrev turned : List ℕ → List ℕ
turned tools = 8 ∷ 7 ∷ []

-- The order of the set decides whether the selection is refused.
tied_refused : select_replay_entries as_listed true none tied ≡ refused (ambiguous_results 7)
unfolding select_replay_entries effective put_all insert newest lookup walk contains and_then gather
    message_ids until keep all_uses tool_uses all_results tool_results keys resolve answer on_branch
    candidates repeat_for checked all_in any
tied_refused = refl

abbrev keys_of : Result RowMap → List ℕ
keys_of (ok d) = keys d
keys_of (refused e) = []

tied_selected : keys_of (select_replay_entries turned true none tied) ≡ 1 ∷ 2 ∷ 3 ∷ 5 ∷ []
unfolding select_replay_entries effective put_all insert newest lookup walk contains and_then gather
    message_ids until keep all_uses tool_uses all_results tool_results keys resolve answer on_branch
    candidates repeat_for checked all_in any
tied_selected = refl

-- Braces with something between them.
abbrev last_byte : List ℕ → ℕ
last_byte [] = 0
last_byte (b ∷ []) = b
last_byte (b ∷ (c ∷ bs)) = last_byte (c ∷ bs)

abbrev first_byte : List ℕ → ℕ
first_byte [] = 0
first_byte (b ∷ bs) = b

abbrev is_braced : List ℕ → Bool
is_braced bs = first_byte bs == 123 && last_byte bs == 125

abbrev first_record : List ℕ
first_record = 123 ∷ 49 ∷ 125 ∷ []

abbrev next_record : List ℕ
next_record = 123 ∷ 50 ∷ 125 ∷ []

abbrev torn_record : List ℕ
torn_record = 123 ∷ 51 ∷ 0 ∷ 0 ∷ []

records_of_written_example :
    records_of is_braced
      (λ x. is_empty (lstrip is_blank x))
      (written (first_record ∷ next_record ∷ []) ++ torn_record)
    ≡ first_record ∷ next_record ∷ []
unfolding rstrip lstrip contains
records_of_written_example =
    records_of_written is_braced (λ x. is_empty (lstrip is_blank x))
      (first_record ∷ next_record ∷ []) torn_record
      (
        ((refl, (refl, (refl, tt))), refl, refl, refl, refl),
        (((refl, (refl, (refl, tt))), refl, refl, refl, refl), tt),
      )
      ((refl, (refl, (refl, (refl, tt)))), λ e. refl) (λ x e. ap is_empty e)

select_ends_example : select_replay_entries as_listed true none parallel ≢ refused out_of_fuel
select_ends_example = select_ends as_listed true none parallel

select-IsWhole_example :
    (contains (keys selection) 3 ≡ true)
    × (contains (keys selection) 2 ≡ true)
    × (all_in (all_results selection) (7 ∷ []) ≡ true)
    × (any is_faulty selection ≡ false)
unfolding effective put_all insert newest lookup walk contains until tool_uses
select-IsWhole_example =
    select-IsWhole as_listed none parallel selection 6 3 50 2
      (row (some 3) (some 2) assistant (some 50) (tool_use 8 ∷ []))
      (row (some 2) (some 1) assistant (some 50) (tool_use 7 ∷ [])) selected_parallel refl
      (1 ∷ 2 ∷ 3 ∷ 5 ∷ 6 ∷ [], refl, refl) refl refl refl (refl, refl, refl, refl)

without_parents-repaired_example :
    without_parents (effective (repaired parallel selection)) ≡ without_parents (effective parallel)
without_parents-repaired_example =
    without_parents-repaired as_listed true none parallel selection selected_parallel

walk-repaired_example :
    walk
      (suc (length (effective (repaired parallel selection))))
      (effective (repaired parallel selection))
      (last_of none selection)
      []
    ≡ ok (keys selection)
walk-repaired_example = walk-repaired as_listed true none parallel selection selected_parallel
