-- ===== src/Fork/Equal.antt =====
-- src/obs_agent/jsonl_fork.py: the latest rows of a fork are those that were selected of its source.
use recursive_harness_builde.Prelude.{
  ℕ, ◌≡◌, ◌⊎◌, sym, refl, ap, subst, ◌∙◌, inl, inr, Option, some, Option-cases, Bool, true, false,
  ◌&&◌, List, [], ◌∷◌, is_empty, contains, Bool-cases, nat_eq, arith, if◌then◌else◌,
}
use recursive_harness_builde.Replay.Rows.{
  Row, RowMap, Refusal, Result, ok, refused, keys, keep, put_all, effective,
}
use recursive_harness_builde.Replay.Select.{select_replay_entries}
use recursive_harness_builde.Replay.Inversion.{select-Steps}
use recursive_harness_builde.Replay.Maps.{put_all-append}
use recursive_harness_builde.Health.Boundaries.{Targets}
use recursive_harness_builde.Health.Analysis.{Health}
use recursive_harness_builde.Prepare.Legacy.{is_legacy, is_boundary}
use recursive_harness_builde.Health.Resolve.{has_uuid, resolve_target}
use recursive_harness_builde.Fork.Copy.{
  forked, before_first, adjacent_metadata, chosen_rows, output_rows, copied, select_or_inherit,
  target_health, fork_session,
}
use recursive_harness_builde.Fork.Kept.{
  put_all-unnamed, adjacent_metadata-unnamed, contains-keep, keep-put_all, keep-same,
}

-- The map of the rows that are written is what was selected.
output_rows-effective :
    (q : ℕ → Bool) (selected : RowMap) (rows : List Row)
    → selected ≡ keep (λ x. q x.0) (effective rows)
    → effective (output_rows selected rows) ≡ selected
unfolding effective output_rows keep
output_rows-effective q selected rows e =
    let metadata = adjacent_metadata [] (before_first (keys selected) [] rows) in
    let kept : ℕ → Bool = contains (keys selected) in
    put_all-append [] metadata (chosen_rows (keys selected) rows)
    ∙ ap (λ x. put_all x (chosen_rows (keys selected) rows))
        (put_all-unnamed [] metadata
          (adjacent_metadata-unnamed [] (before_first (keys selected) [] rows) tt))
    ∙ sym (keep-put_all kept (keys selected) [] rows (λ u. refl))
    ∙ keep-same kept q (put_all [] rows) (λ u i.
      ap (λ x. contains (keys x) u) e ∙ contains-keep q u (put_all [] rows) ∙ rw i (ground arith))
    ∙ sym e

keep-nothing : (d : RowMap) → keep (λ x. false) d ≡ []
unfolding keep
keep-nothing [] = refl
keep-nothing (x ∷ d) = keep-nothing d

-- A selection keeps rows of the map by their identifiers.
select-keep :
    (spread : List ℕ → List ℕ) (c : Bool) (target : Option ℕ) (rows : List Row) (selected : RowMap)
    → select_replay_entries spread c target rows ≡ ok selected
    → (q : ℕ → Bool) × (selected ≡ keep (λ x. q x.0) (effective rows))
select-keep spread c target rows selected e = elim (select-Steps spread c target rows selected e) [
  | inl n ↦ (λ u. false, n.0 ∙ sym (keep-nothing (effective rows)))
  | inr (t, g, s) ↦ (contains s.chosen, s.kept)
]

ok_or_inherited :
    (x y : Result RowMap) (f : Refusal → Bool) (selected : RowMap)
    → (elim x as (λ r. Result RowMap) [ ok s ↦ ok s | refused e ↦ if f e then y else refused e ])
      ≡ ok selected
    → (x ≡ ok selected) ⊎ (y ≡ ok selected)
ok_or_inherited (ok s) y f selected e = inl e
ok_or_inherited (refused r) y f selected e = elim (Bool-cases (f r)) [
  | inl b ↦ inr (ground (arith, e, b))
  | inr b ↦ absurd (ground (arith, e, b))
]

copied-forked :
    (s t : ℕ) (rows out : List Row) (x : Result RowMap)
    → copied s rows x ≡ forked t out
    → (selected : RowMap) × (x ≡ ok selected) × (s ≡ t) × (output_rows selected rows ≡ out)
copied-forked s t rows out (ok []) e = absurd (cc e)
copied-forked s t rows out (ok ((u, r) ∷ selected)) e = ((u, r) ∷ selected, refl, cc e, cc e)
copied-forked s t rows out (refused r) e = absurd (cc e)

select_or_inherit-select :
    (spread : List ℕ → List ℕ) (targets : Targets) (t : ℕ) (rows : List Row) (selected : RowMap)
    → select_or_inherit spread targets t rows ≡ ok selected
    → (c : Bool) × (select_replay_entries spread c (some t) rows ≡ ok selected)
select_or_inherit-select spread targets t rows selected e =
    elim (ok_or_inherited (select_replay_entries spread true (some t) rows)
      (select_replay_entries spread false (some t) rows)
      (λ (x : Refusal). is_legacy x && is_boundary targets t) selected e) [
        | inl a ↦ (true, a)
        | inr a ↦ (false, a)
      ]

-- A fork starts with exactly what was selected of its source: where rows are written for the target `t`, the
-- map of their latest copies is a selection of the source that ends at `t`, to the row and in the same order,
-- whatever metadata is copied with them.
pub fork_session-effective :
    (spread : List ℕ → List ℕ) (h : Health) (branch : ℕ → Option Health) (u t : ℕ)
    (rows out : List Row)
    → fork_session spread h branch u rows ≡ forked t out
    → (c : Bool) × (selected : RowMap) × (select_replay_entries spread c (some t) rows
        ≡ ok selected)
      × (effective out ≡ selected)
unfolding fork_session
fork_session-effective spread h branch u t rows out e =
    let aim = resolve_target h branch (some u) in
    elim (Bool-cases (has_uuid h u)) [
      | inl a ↦ elim (Option-cases aim.target_uuid) [
        | inl n ↦ absurd (cc (rw (fork_session, a, n) at e))
        | inr (s, n) ↦ elim (Bool-cases (is_empty rows)) [
          | inl m ↦ absurd (cc (rw (fork_session, a, n, m) at e))
          | inr m ↦
              let (selected, x, y, z) =
                copied-forked s t rows out
                  (select_or_inherit spread (target_health h branch aim u).targets s rows)
                  (rw (fork_session, a, n, m) at e) in
              let (c, k) =
                select_or_inherit-select spread (target_health h branch aim u).targets s rows
                  selected x in
              let (q, j) = select-keep spread c (some s) rows selected k in
              (
                c,
                selected,
                subst (λ t. select_replay_entries spread c (some t) rows ≡ ok selected) y k,
                ap effective (sym z) ∙ output_rows-effective q selected rows j,
              )
        ]
      ]
      | inr a ↦ absurd (cc (rw (fork_session, a) at e))
    ]
