-- ===== src/Replay/Again.antt =====
-- src/obs_agent/jsonl_replay.py: a second preparation of the same transcript.
use recursive_harness_builde.Prelude.{
  ℕ, suc, ◌≡◌, sym, refl, ap, subst, ◌∙◌, Option, none, some, Bool, true, List, [], ◌∷◌, ==_refl,
  nat_eq, lookup, Entries,
}
use recursive_harness_builde.Replay.Rows.{Row, RowMap, ok, keys, effective}
use recursive_harness_builde.Replay.Select.{select_replay_entries}
use recursive_harness_builde.Replay.Overlays.{same_parent, with_parent, relink, repaired}
use recursive_harness_builde.Replay.Chain.{linked, overlaid-linked}
use recursive_harness_builde.Replay.Repair.{select-IsSelection, repaired_map}

same_parent_refl : (p : Option ℕ) → same_parent p p ≡ true
same_parent_refl none = refl
same_parent_refl (some a) = ==_refl a

-- Rows that are linked already get no overlay.
relink-linked : (i : ℕ) (p : Option ℕ) (rows : RowMap) → relink none none i p (linked p rows) ≡ []
unfolding relink linked
relink-linked i p [] = refl
relink-linked i p ((u, r) ∷ rows) = rw (same_parent_refl p) (relink-linked (suc i) (some u) rows)

-- Rows that a map has under the same identifiers are the same.
same_rows :
    (p : Option ℕ) (rows others d : RowMap)
    → keys others ≡ keys rows
    → Entries (λ u r. lookup u d ≡ some r) others
    → Entries (λ u r. lookup u d ≡ some r) (linked p rows)
    → others ≡ linked p rows
unfolding keys linked
same_rows p [] [] d e h k = refl
same_rows p [] (x ∷ others) d e h k = cc e
same_rows p (x ∷ rows) [] d e h k = cc e
same_rows p ((u, r) ∷ rows) ((v, s) ∷ others) d e h k =
    let first : v ≡ u = cc e in
    let row : s ≡ with_parent p r = cc (sym h.0, ap (λ w. lookup w d) first, k.0) in
    cc (first, row, same_rows (some u) rows others d (cc e) h.1 k.1)

module _ (spread again : List ℕ → List ℕ) (c b : Bool) where
  -- A preparation is needed once: where a selection succeeded, and after the rows were appended one that
  -- succeeds takes the same rows, no row is appended for it.
  pub relink-repaired :
      (target next : Option ℕ) (rows : List Row) (selected reselected : RowMap)
      → select_replay_entries spread c target rows ≡ ok selected
      → select_replay_entries again b next (repaired rows selected) ≡ ok reselected
      → keys reselected ≡ keys selected
      → relink none none 0 none reselected ≡ []
  relink-repaired target next rows selected reselected e f k =
      let (m, h, l) = select-IsSelection spread c target rows selected e in
      let (m', h', l') = select-IsSelection again b next (repaired rows selected) reselected f in
      let links =
        subst (λ d. Entries (λ u r. lookup u d ≡ some r) (linked none selected))
          (sym (repaired_map rows selected))
          (overlaid-linked 0 none selected (effective rows) m h) in
      ap (relink none none 0 none)
        (same_rows none selected reselected (effective (repaired rows selected)) k h' links)
      ∙ relink-linked 0 none selected
