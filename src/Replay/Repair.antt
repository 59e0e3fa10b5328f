-- ===== src/Replay/Repair.antt =====
-- src/obs_agent/jsonl_replay.py: what a preparation makes of a transcript whose selection is complete.
use recursive_harness_builde.Prelude.{
  ℕ, suc, ◌≤◌, ◌≡◌, sym, refl, ap, subst, ◌∙◌, inl, inr, Option, none, some, Bool, List, [], ◌∷◌,
  ◌==◌, nat_eq, contains, lookup, insert, length, Entries, Bool-cases, arith,
}
use recursive_harness_builde.Replay.Rows.{Row, RowMap, ok, keys, put_all, effective, walk}
use recursive_harness_builde.Replay.Select.{select_replay_entries}
use recursive_harness_builde.Replay.Overlays.{same_parent, with_parent, relink, rows_of, repaired}
use recursive_harness_builde.Replay.Maps.{
  IsMap, effective-IsMap, IsMap-keep, keep-Entries, length-keep-le, put_all-append,
}
use recursive_harness_builde.Replay.Inversion.{select-Steps}
use recursive_harness_builde.Replay.Chain.{
  linked, last_of, overlaid, overlaid_same, overlaid_new, overlaid-linked, Entries-insert_other,
  walk_whole,
}

-- The row as the transcript has it, each field written out, but with no parent.
abbrev pub without_parent : Row → Row
without_parent r = record {
  uuid = r.uuid;
  parent = none;
  kind = r.kind;
  is_sidechain = r.is_sidechain;
  timestamp = r.timestamp;
  message_id = r.message_id;
  content = r.content;
  is_api_error = r.is_api_error;
  is_synthetic = r.is_synthetic;
}

-- A map without the parents of its rows.
unfoldable pub without_parents : RowMap → RowMap
without_parents [] = []
without_parents ((u, r) ∷ d) = (u, without_parent r) ∷ without_parents d

without_parents-insert :
    (u : ℕ) (r : Row) (p : Option ℕ) (d : RowMap)
    → lookup u d ≡ some r
    → without_parents (insert u (with_parent p r) d) ≡ without_parents d
unfolding without_parents lookup insert
without_parents-insert u r p [] h = ground (arith, h)
without_parents-insert u r p ((v, s) ∷ d) h = elim (Bool-cases (v == u)) [
  | inl e ↦
      let same : s ≡ r = ground (arith, h, e) in
      rw e (ap (λ r. (v, without_parent r) ∷ without_parents d) (sym same))
  | inr e ↦
      rw e (
        ap (λ x. (v, without_parent s) ∷ x) (without_parents-insert u r p d (ground (arith, h, e))))
]

without_parents-overlaid :
    (i : ℕ) (p : Option ℕ) (rows d : RowMap)
    → IsMap rows
    → Entries (λ u r. lookup u d ≡ some r) rows
    → without_parents (overlaid i p rows d) ≡ without_parents d
unfolding keys relink rows_of put_all
without_parents-overlaid i p [] d m h = refl
without_parents-overlaid i p ((u, r) ∷ rows) d m h =
    let tail : IsMap rows = record { distinct = m.distinct.1; named = m.named.1 } in
    elim (Bool-cases (same_parent r.parent p)) [
      | inl e ↦
          ap without_parents (overlaid_same i u p r rows d e)
          ∙ without_parents-overlaid (suc i) (some u) rows d tail h.1
      | inr e ↦
          ap without_parents (overlaid_new i u p r rows d e m.named.0)
          ∙ without_parents-overlaid (suc i) (some u) rows (insert u (with_parent p r) d) tail
              (Entries-insert_other u (with_parent p r) d rows m.distinct.0 h.1)
          ∙ without_parents-insert u r p d h.0
    ]

length-without_parents : (d : RowMap) → length (without_parents d) ≡ length d
unfolding without_parents
length-without_parents [] = refl
length-without_parents (x ∷ d) = ap suc (length-without_parents d)

abbrev pub IsSelection : RowMap → RowMap → Type 0
IsSelection d selected =
    IsMap selected × Entries (λ u r. lookup u d ≡ some r) selected × (length selected ≤ length d)

nothing-IsSelection : (d : RowMap) → IsSelection d []
unfolding keys
nothing-IsSelection d = (record { distinct = tt; named = tt }, tt, omega arith)

pub repaired_map :
    (rows : List Row) (selected : RowMap)
    → effective (repaired rows selected) ≡ overlaid 0 none selected (effective rows)
unfolding effective repaired
repaired_map rows selected = put_all-append [] rows (rows_of (relink none none 0 none selected))

module _ (spread : List ℕ → List ℕ) (c : Bool) where
  -- What is selected are rows of the map, each once.
  pub select-IsSelection :
      (target : Option ℕ) (rows : List Row) (selected : RowMap)
      → select_replay_entries spread c target rows ≡ ok selected
      → IsSelection (effective rows) selected
  select-IsSelection target rows selected e = elim (select-Steps spread c target rows selected e) [
    | inl n ↦ subst (IsSelection (effective rows)) (sym n.0) (nothing-IsSelection (effective rows))
    | inr (t, g, s) ↦
        let p : ℕ × Row → Bool = λ x. contains s.chosen x.0 in
        let m = effective-IsMap rows in
        subst (IsSelection (effective rows)) (sym s.kept) (
          IsMap-keep p (effective rows) m,
          keep-Entries p (effective rows) m.distinct,
          length-keep-le p (effective rows),
        )
  ]

  -- A preparation changes nothing but parents: where the selection succeeded, the map of the transcript with
  -- the appended rows has the same identifiers, in the same order, and each row's other fields.
  pub without_parents-repaired :
      (target : Option ℕ) (rows : List Row) (selected : RowMap)
      → select_replay_entries spread c target rows ≡ ok selected
      → without_parents (effective (repaired rows selected)) ≡ without_parents (effective rows)
  without_parents-repaired target rows selected e =
      let (m, h, l) = select-IsSelection target rows selected e in
      ap without_parents (repaired_map rows selected)
      ∙ without_parents-overlaid 0 none selected (effective rows) m h

  -- A reader that follows parents alone finds the whole selection: where the selection succeeded, the walk
  -- from its last row, over the transcript with the appended rows, visits the selected rows and no other,
  -- each once, in the order of the transcript.
  pub walk-repaired :
      (target : Option ℕ) (rows : List Row) (selected : RowMap)
      → select_replay_entries spread c target rows ≡ ok selected
      → walk
          (suc (length (effective (repaired rows selected))))
          (effective (repaired rows selected))
          (last_of none selected)
          []
        ≡ ok (keys selected)
  walk-repaired target rows selected e =
      let (m, h, l) = select-IsSelection target rows selected e in
      let same = ap length (without_parents-repaired target rows selected e) in
      walk_whole (suc (length (effective (repaired rows selected)))) selected
        (effective (repaired rows selected))
        (omega (
          arith,
          l,
          same,
          length-without_parents (effective rows),
          length-without_parents (effective (repaired rows selected)),
        ))
        m.distinct
        (subst (λ d. Entries (λ u r. lookup u d ≡ some r) (linked none selected))
          (sym (repaired_map rows selected)) (overlaid-linked 0 none selected (effective rows) m h))
