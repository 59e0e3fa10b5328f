-- ===== src/Prepare/Opaque.antt =====
-- src/obs_agent/jsonl_replay.py: a preparation with a legacy boundary leaves the inherited rows as they are.
use recursive_harness_builde.Prelude.{
  ℕ, zero, suc, ◌-◌, ◌≡◌, sym, refl, ap, subst, ◌∙◌, inl, inr, Option, none, some, Option-cases,
  true, false, ◌&&◌, not, List, [], ◌∷◌, ◌++◌, any, All, contains, lookup, take, drop, Entries,
  IsDistinct, Bool-cases, nat_eq, arith,
}
use recursive_harness_builde.Replay.Rows.{
  Row, RowMap, Refusal, Result, ok, refused, keys, put_all, effective,
}
use recursive_harness_builde.Replay.Select.{all_results, select_replay_entries}
use recursive_harness_builde.Replay.Overlays.{relink, rows_of}
use recursive_harness_builde.Replay.Maps.{IsMap, put_all-append}
use recursive_harness_builde.Replay.Chain.{linked, overlaid, lookup_unselected, overlaid-linked}
use recursive_harness_builde.Replay.Repair.{select-IsSelection}
use recursive_harness_builde.Health.Boundaries.{Targets}
use recursive_harness_builde.Health.Analysis.{Health, needs_recovery}
use recursive_harness_builde.Prepare.Legacy.{
  prepared, is_legacy, is_confirmed, is_invalid, invalid_groups, last_index, limit_from, window,
  is_unsound, repair, repair_suffix, repair_result, retreat, prepare_of, prepare,
}
use recursive_harness_builde.Prepare.Window.{first_parent, relink-window}

All-drop : {A : Type 0} (Q : A → Type 0) (n : ℕ) (xs : List A) → All Q xs → All Q (drop n xs)
unfolding drop
All-drop Q zero xs h = h
All-drop Q (suc n) [] h = h
All-drop Q (suc n) (x ∷ xs) h = All-drop Q n xs h.1

All-take : {A : Type 0} (Q : A → Type 0) (n : ℕ) (xs : List A) → All Q xs → All Q (take n xs)
unfolding take
All-take Q zero xs h = tt
All-take Q (suc n) [] h = h
All-take Q (suc n) (x ∷ xs) h = (h.0, All-take Q n xs h.1)

contains-take :
    (n u : ℕ) (d : RowMap) → contains (keys d) u ≡ false → contains (keys (take n d)) u ≡ false
unfolding take keys contains
contains-take zero u d h = refl
contains-take (suc n) u [] h = h
contains-take (suc n) u (x ∷ d) h = ground (arith, h, contains-take n u d)

IsDistinct-take : (n : ℕ) (d : RowMap) → IsDistinct (keys d) → IsDistinct (keys (take n d))
unfolding take keys
IsDistinct-take zero d h = tt
IsDistinct-take (suc n) [] h = h
IsDistinct-take (suc n) (x ∷ d) h = (contains-take n x.0 d h.0, IsDistinct-take n d h.1)

IsDistinct-drop : (n : ℕ) (d : RowMap) → IsDistinct (keys d) → IsDistinct (keys (drop n d))
unfolding drop keys
IsDistinct-drop zero d h = h
IsDistinct-drop (suc n) [] h = h
IsDistinct-drop (suc n) (x ∷ d) h = IsDistinct-drop n d h.1

window-IsMap : (b l : ℕ) (d : RowMap) → IsMap d → IsMap (window b l d)
window-IsMap b l d m = record {
  distinct = IsDistinct-take (l - suc b) (drop (suc b) d) (IsDistinct-drop (suc b) d m.distinct);
  named =
      All-take (λ (x : ℕ × Row). x.1.uuid ≡ some x.0) (l - suc b) (drop (suc b) d)
        (All-drop (λ (x : ℕ × Row). x.1.uuid ≡ some x.0) (suc b) d m.named);
}

window-Entries :
    (b l : ℕ) (rows d : RowMap)
    → Entries (λ u r. lookup u d ≡ some r) rows
    → Entries (λ u r. lookup u d ≡ some r) (window b l rows)
window-Entries b l rows d h =
    All-take (λ (x : ℕ × Row). lookup x.0 d ≡ some x.1) (l - suc b) (drop (suc b) rows)
      (All-drop (λ (x : ℕ × Row). lookup x.0 d ≡ some x.1) (suc b) rows h)

-- What a preparation with a legacy boundary has gone through.
abbrev IsRetreat : RowMap → ℕ → ℕ → RowMap → Type 0
IsRetreat selected b l overlays =
    (overlays ≡ relink (some b) (some l) 0 none selected)
    × (any (is_invalid (all_results (window b l selected))) (window b l selected) ≡ false)

repair-IsRetreat :
    (error : Refusal) (targets : Targets) (rows selected overlays : RowMap) (c m b l : ℕ)
    → repair error targets rows c m ≡ prepared selected (some b) (some l) overlays
    → (rows ≡ selected) × IsRetreat selected b l overlays
repair-IsRetreat error targets rows selected overlays c m b l e =
    elim (Bool-cases (is_unsound targets (window c m rows))) [
      | inl n ↦ absurd (cc (rw (repair, n) at e))
      | inr n ↦
          let whole : prepared rows (some c) (some m) (relink (some c) (some m) 0 none rows)
              ≡ prepared selected (some b) (some l) overlays =
            rw (repair, n) at e in
          let same : rows ≡ selected = cc whole in
          let first : c ≡ b = cc whole in
          let limit : m ≡ l = cc whole in
          let sound : any (is_invalid (all_results (window c m rows))) (window c m rows) ≡ false =
            ground (arith, n) in
          (same, (cc (whole, same, first, limit), cc (same, first, limit, sound)))
    ]

repair_suffix-IsRetreat :
    (error : Refusal) (targets : Targets) (rows selected overlays : RowMap) (b l : ℕ)
    → repair_suffix error targets rows ≡ prepared selected (some b) (some l) overlays
    → (rows ≡ selected) × IsRetreat selected b l overlays
unfolding repair_suffix
repair_suffix-IsRetreat error targets rows selected overlays b l e =
    elim (Option-cases (last_index (invalid_groups (all_results rows) rows) none 0 rows)) [
      | inl n ↦ absurd (cc (rw (repair_suffix, n) at e))
      | inr (c, n) ↦
          repair-IsRetreat error targets rows selected overlays c (limit_from targets c 0 rows) b l
            (rw (repair_suffix, n) at e)
    ]

result-IsRetreat :
    (error : Refusal) (targets : Targets) (x : Result RowMap) (selected overlays : RowMap) (b l : ℕ)
    → repair_result error targets x ≡ prepared selected (some b) (some l) overlays
    → (x ≡ ok selected) × IsRetreat selected b l overlays
result-IsRetreat error targets (ok rows) selected overlays b l e =
    let (same, r) = repair_suffix-IsRetreat error targets rows selected overlays b l e in
    (ap ok same, r)
result-IsRetreat error targets (refused r) selected overlays b l e = absurd (cc e)

-- A selection behind the boundary of a preparation.
retreat-IsRetreat :
    (spread : List ℕ → List ℕ) (h : Health) (target : Option ℕ) (rows : List Row) (error : Refusal)
    (selected overlays : RowMap) (b l : ℕ)
    → retreat spread h target rows error ≡ prepared selected (some b) (some l) overlays
    → (select_replay_entries spread false target rows ≡ ok selected)
      × IsRetreat selected b l overlays
retreat-IsRetreat spread h target rows error selected overlays b l e =
    elim (Bool-cases (is_legacy error && (not (needs_recovery h) && is_confirmed h target))) [
      | inl n ↦
          result-IsRetreat error h.targets (select_replay_entries spread false target rows) selected
            overlays b l (rw (retreat, n) at e)
      | inr n ↦ absurd (cc (rw (retreat, n) at e))
    ]

prepare-IsRetreat :
    (spread : List ℕ → List ℕ) (h : Health) (target : Option ℕ) (rows : List Row)
    (x : Result RowMap) (selected overlays : RowMap) (b l : ℕ)
    → prepare_of spread h target rows x ≡ prepared selected (some b) (some l) overlays
    → (select_replay_entries spread false target rows ≡ ok selected)
      × IsRetreat selected b l overlays
prepare-IsRetreat spread h target rows (ok s) selected overlays b l e = absurd (cc e)
prepare-IsRetreat spread h target rows (refused r) selected overlays b l e =
    retreat-IsRetreat spread h target rows r selected overlays b l e

-- Inherited damage is left as it is: where a preparation retreats to a legacy boundary, and appends overlays
-- for the rows between it and the repair limit, then none of these rows is an error or has a tool call
-- without a result among them; each is found with the row before it as its parent, and the first one with
-- the parent that it had; and every other identifier, as `v`, keeps its row.
pub prepare-opaque :
    (spread : List ℕ → List ℕ) (h : Health) (target : Option ℕ) (rows : List Row)
    (selected overlays : RowMap) (b l v : ℕ)
    → prepare spread h target rows ≡ prepared selected (some b) (some l) overlays
    → contains (keys (window b l selected)) v ≡ false
    → (any (is_invalid (all_results (window b l selected))) (window b l selected) ≡ false)
      × Entries
          (λ u r. lookup u (effective (rows ++ rows_of overlays)) ≡ some r)
          (linked (first_parent (window b l selected)) (window b l selected))
      × (lookup v (effective (rows ++ rows_of overlays)) ≡ lookup v (effective rows))
unfolding prepare effective
prepare-opaque spread h target rows selected overlays b l v e n =
    let (k, (o, s)) =
      prepare-IsRetreat spread h target rows (select_replay_entries spread true target rows)
        selected overlays b l e in
    let (m, i, w) = select-IsSelection spread false target rows selected k in
    let part = window b l selected in
    let p = first_parent part in
    let made : put_all [] (rows ++ rows_of overlays) ≡ overlaid 0 p part (put_all [] rows) =
      put_all-append [] rows (rows_of overlays)
      ∙ ap (λ x. put_all (put_all [] rows) (rows_of x)) (o ∙ relink-window b l selected) in
    let named = window-IsMap b l selected m in
    (
      s,
      subst (λ d. Entries (λ u r. lookup u d ≡ some r) (linked p part)) (sym made)
          (overlaid-linked 0 p part (put_all [] rows) named
            (window-Entries b l selected (put_all [] rows) i)),
      ap (lookup v) made ∙ lookup_unselected v 0 p part (put_all [] rows) named.named n,
    )
