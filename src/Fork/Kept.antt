-- ===== src/Fork/Kept.antt =====
-- src/obs_agent/jsonl_fork.py: what the rows that are copied leave in the map of the latest rows.
use recursive_harness_builde.Prelude.{
  ℕ, ◌≡◌, sym, refl, ap, subst, ◌∙◌, inl, inr, Option, none, some, Option-cases, is_some, Bool,
  true, false, ◌&&◌, List, [], ◌∷◌, contains, insert, Bool-cases, ==_iff, ==_refl, ◌==◌, nat_eq,
  All, arith, if◌then◌else◌,
}
use recursive_harness_builde.Replay.Rows.{Row, RowMap, keys, keep, put_all}
use recursive_harness_builde.Fork.Copy.{adjacent_metadata, chosen_rows}

-- Rows with no identifier leave no trace in the map.
pub put_all-unnamed :
    (d : RowMap) (rows : List Row) → All (λ r. r.uuid ≡ none) rows → put_all d rows ≡ d
unfolding put_all
put_all-unnamed d [] h = refl
put_all-unnamed d (r ∷ rows) h =
    ap (λ x. put_all x rows)
      (ap (λ (o : Option ℕ). elim o [ none ↦ d | some u ↦ insert u r d ]) h.0)
    ∙ put_all-unnamed d rows h.1

pub adjacent_metadata-unnamed :
    (metadata rows : List Row)
    → All (λ r. r.uuid ≡ none) metadata
    → All (λ r. r.uuid ≡ none) (adjacent_metadata metadata rows)
unfolding adjacent_metadata
adjacent_metadata-unnamed metadata [] h = h
adjacent_metadata-unnamed metadata (r ∷ rows) h = elim (Option-cases r.uuid) [
  | inl n ↦
      subst
        (λ (o : Option ℕ).
          All (λ r. r.uuid ≡ none)
            (if is_some o then metadata else adjacent_metadata (r ∷ metadata) rows))
        (sym n) (adjacent_metadata-unnamed (r ∷ metadata) rows (n, h))
  | inr (u, n) ↦
      subst
        (λ (o : Option ℕ).
          All (λ r. r.uuid ≡ none)
            (if is_some o then metadata else adjacent_metadata (r ∷ metadata) rows))
        (sym n) h
]

abbrev put_at : Row → RowMap → Option ℕ → RowMap
put_at r d o = elim o [ none ↦ d | some u ↦ insert u r d ]

module _ (q : ℕ → Bool) where
  insert_past :
      (u v : ℕ) (r s : Row) (d : RowMap)
      → (v == u) ≡ false
      → (v, s) ∷ (if q u then insert u r (keep (λ x. q x.0) d) else keep (λ x. q x.0) d)
        ≡ (if q u then insert u r ((v, s) ∷ keep (λ x. q x.0) d) else (v, s) ∷ keep (λ x. q x.0) d)
  unfolding insert
  insert_past u v r s d e = elim (Bool-cases (q u)) [ inl k ↦ rw (k, e) refl | inr k ↦ rw k refl ]

  keep-insert :
      (u : ℕ) (r : Row) (d : RowMap)
      → keep (λ x. q x.0) (insert u r d)
        ≡ (if q u then insert u r (keep (λ x. q x.0) d) else keep (λ x. q x.0) d)
  unfolding keep insert
  keep-insert u r [] = refl
  keep-insert u r ((v, s) ∷ d) = elim (Bool-cases (v == u)) [
    | inl e ↦
        let same : q v ≡ q u = ap q ((==_iff v u).0 e) in
        elim (Bool-cases (q u)) [
          | inl k ↦ rw (e, same, k) (rw (insert, e) refl)
          | inr k ↦ rw (e, same, k) refl
        ]
    | inr e ↦ elim (Bool-cases (q v)) [
      | inl k ↦ rw (e, k, keep-insert u r d) (insert_past u v r s d e)
      | inr k ↦ rw (e, k, keep-insert u r d) refl
    ]
  ]

  chosen_rows-cons :
      (uuids : List ℕ) (r : Row) (rows : List Row) (u : ℕ)
      → r.uuid ≡ some u
      → chosen_rows uuids (r ∷ rows)
        ≡ (if contains uuids u then r ∷ chosen_rows uuids rows else chosen_rows uuids rows)
  unfolding chosen_rows
  chosen_rows-cons uuids r rows u n =
      ap
        (λ (o : Option ℕ).
          if (elim o as (λ o. Bool) [ none ↦ false | some u ↦ contains uuids u ])
          then r ∷ chosen_rows uuids rows
          else chosen_rows uuids rows)
        n

  chosen_rows-unnamed :
      (uuids : List ℕ) (r : Row) (rows : List Row)
      → r.uuid ≡ none
      → chosen_rows uuids (r ∷ rows) ≡ chosen_rows uuids rows
  unfolding chosen_rows
  chosen_rows-unnamed uuids r rows n =
      ap
        (λ (o : Option ℕ).
          if (elim o as (λ o. Bool) [ none ↦ false | some u ↦ contains uuids u ])
          then r ∷ chosen_rows uuids rows
          else chosen_rows uuids rows)
        n

  put_kept :
      (uuids : List ℕ) (u : ℕ) (r : Row) (d : RowMap) (rows : List Row)
      → q u ≡ contains uuids u
      → r.uuid ≡ some u
      → put_all (if q u then insert u r d else d) rows
        ≡ put_all d (if contains uuids u then r ∷ rows else rows)
  unfolding put_all
  put_kept uuids u r d rows h n = elim (Bool-cases (contains uuids u)) [
    | inl k ↦ rw (h, k) (sym (ap (λ x. put_all x rows) (ap (put_at r d) n)))
    | inr k ↦ rw (h, k) refl
  ]

  pub contains-keep :
      (u : ℕ) (d : RowMap) → contains (keys (keep (λ x. q x.0) d)) u ≡ (q u && contains (keys d) u)
  unfolding contains keys keep
  contains-keep u [] = ground arith
  contains-keep u ((v, r) ∷ d) = elim (Bool-cases (v == u)) [
    | inl e ↦ ground (arith, e, ap q ((==_iff v u).0 e), contains-keep u d)
    | inr e ↦ ground (arith, e, contains-keep u d)
  ]

  -- The rows that `q` keeps make what it keeps of the map.
  pub keep-put_all :
      (uuids : List ℕ) (d : RowMap) (rows : List Row)
      → ((u : ℕ) → q u ≡ contains uuids u)
      → keep (λ x. q x.0) (put_all d rows) ≡ put_all (keep (λ x. q x.0) d) (chosen_rows uuids rows)
  unfolding put_all chosen_rows
  keep-put_all uuids d [] h = refl
  keep-put_all uuids d (r ∷ rows) h = elim (Option-cases r.uuid) [
    | inl n ↦
        ap (λ x. keep (λ x. q x.0) (put_all x rows)) (ap (put_at r d) n)
        ∙ keep-put_all uuids d rows h
        ∙ ap (put_all (keep (λ x. q x.0) d)) (sym (chosen_rows-unnamed uuids r rows n))
    | inr (u, n) ↦
        ap (λ x. keep (λ x. q x.0) (put_all x rows)) (ap (put_at r d) n)
        ∙ keep-put_all uuids (insert u r d) rows h
        ∙ ap (λ x. put_all x (chosen_rows uuids rows)) (keep-insert u r d)
        ∙ put_kept uuids u r (keep (λ x. q x.0) d) (chosen_rows uuids rows) (h u) n
        ∙ ap (put_all (keep (λ x. q x.0) d)) (sym (chosen_rows-cons uuids r rows u n))
  ]

pub keep-same :
    (p q : ℕ → Bool) (d : RowMap)
    → ((u : ℕ) → contains (keys d) u ≡ true → p u ≡ q u)
    → keep (λ x. p x.0) d ≡ keep (λ x. q x.0) d
unfolding contains keys keep
keep-same p q [] h = refl
keep-same p q ((u, r) ∷ d) h =
    rw (h u (rw (==_refl u) refl), keep-same p q d (λ v e. h v (ground (arith, e)))) refl
