-- ===== src/Prepare/Window.antt =====
-- src/obs_agent/jsonl_replay.py: with a legacy boundary and a limit, the overlays are those of the rows between them.
use recursive_harness_builde.Prelude.{
  ℕ, zero, suc, ◌+◌, ◌-◌, ◌≤◌, ◌≡◌, refl, ap, ◌∙◌, Option, none, some, true, false, [], ◌∷◌, take,
  drop, nat_eq, arith, if◌then◌else◌,
}
use recursive_harness_builde.Replay.Rows.{Row, RowMap}
use recursive_harness_builde.Replay.Overlays.{same_parent, with_parent, is_opaque, is_first, relink}
use recursive_harness_builde.Prepare.Legacy.{window}

-- The index matters to a boundary and a limit only.
relink-index :
    (i j : ℕ) (p : Option ℕ) (rows : RowMap) → relink none none i p rows ≡ relink none none j p rows
unfolding relink
relink-index i j p [] = refl
relink-index i j p ((u, r) ∷ rows) = rw (relink-index (suc i) (suc j) (some u) rows) refl

-- The parent that the first of the rows has.
abbrev pub first_parent : RowMap → Option ℕ
first_parent [] = none
first_parent ((u, r) ∷ rows) = r.parent

module _ (b l : ℕ) where
  relink_step :
      (i u : ℕ) (p : Option ℕ) (r : Row) (rows : RowMap)
      → is_opaque (some b) (some l) i ≡ false
      → is_first (some b) i ≡ false
      → relink (some b) (some l) i p ((u, r) ∷ rows) ≡ (
          if same_parent r.parent p
          then relink (some b) (some l) (suc i) (some u) rows
          else (u, with_parent p r) ∷ relink (some b) (some l) (suc i) (some u) rows)
  unfolding relink
  relink_step i u p r rows o f = rw (o, f) refl

  relink_first :
      (i u : ℕ) (p : Option ℕ) (r : Row) (rows : RowMap)
      → is_opaque (some b) (some l) i ≡ false
      → is_first (some b) i ≡ true
      → relink (some b) (some l) i p ((u, r) ∷ rows) ≡ (
          if same_parent r.parent r.parent
          then relink (some b) (some l) (suc i) (some u) rows
          else (u, with_parent r.parent r) ∷ relink (some b) (some l) (suc i) (some u) rows)
  unfolding relink
  relink_first i u p r rows o f = rw (o, f) refl

  relink_skip :
      (i u : ℕ) (p : Option ℕ) (r : Row) (rows : RowMap)
      → is_opaque (some b) (some l) i ≡ true
      → relink (some b) (some l) i p ((u, r) ∷ rows) ≡ relink (some b) (some l) (suc i) p rows
  unfolding relink
  relink_skip i u p r rows o = rw o refl

  relink_beyond :
      (i : ℕ) (p : Option ℕ) (rows : RowMap) → l ≤ i → relink (some b) (some l) i p rows ≡ []
  unfolding relink
  relink_beyond i p [] h = refl
  relink_beyond i p ((u, r) ∷ rows) h =
      relink_skip i u p r rows (ground (arith, h)) ∙ relink_beyond (suc i) p rows (omega (arith, h))

  relink_within :
      (i n : ℕ) (p : Option ℕ) (rows : RowMap)
      → suc (suc b) ≤ i
      → l - i ≡ n
      → relink (some b) (some l) i p rows ≡ relink none none 0 p (take n rows)
  unfolding relink take
  relink_within i zero p rows h e = relink_beyond i p rows (omega (arith, e))
  relink_within i (suc n) p [] h e = refl
  relink_within i (suc n) p ((u, r) ∷ rows) h e =
      relink_step i u p r rows (ground (arith, h, e)) (ground (arith, h))
      ∙ ap (λ x. if same_parent r.parent p then x else (u, with_parent p r) ∷ x)
          (relink_within (suc i) n (some u) rows (omega (arith, h)) (omega (arith, e))
            ∙ relink-index 0 1 (some u) (take n rows))

  relink_at :
      (n : ℕ) (p : Option ℕ) (rows : RowMap)
      → l - suc b ≡ n
      → relink (some b) (some l) (suc b) p rows
        ≡ relink none none 0 (first_parent (take n rows)) (take n rows)
  unfolding relink take
  relink_at zero p rows e = relink_beyond (suc b) p rows (omega (arith, e))
  relink_at (suc n) p [] e = refl
  relink_at (suc n) p ((u, r) ∷ rows) e =
      relink_first (suc b) u p r rows (ground (arith, e)) (ground arith)
      ∙ ap (λ x. if same_parent r.parent r.parent then x else (u, with_parent r.parent r) ∷ x)
          (relink_within (suc (suc b)) n (some u) rows (omega arith) (omega (arith, e))
            ∙ relink-index 0 1 (some u) (take n rows))

  relink_behind :
      (i k : ℕ) (p : Option ℕ) (rows : RowMap)
      → i + k ≡ suc b
      → relink (some b) (some l) i p rows ≡ relink (some b) (some l) (suc b) p (drop k rows)
  unfolding relink drop
  relink_behind i zero p rows e = ap (λ j. relink (some b) (some l) j p rows) (omega (arith, e))
  relink_behind i (suc k) p [] e = refl
  relink_behind i (suc k) p ((u, r) ∷ rows) e =
      relink_skip i u p r rows (ground (arith, e))
      ∙ relink_behind (suc i) k p rows (omega (arith, e))

  pub relink-window :
      (rows : RowMap)
      → relink (some b) (some l) 0 none rows
        ≡ relink none none 0 (first_parent (window b l rows)) (window b l rows)
  relink-window rows =
      relink_behind 0 (suc b) none rows (omega arith)
      ∙ relink_at (l - suc b) none (drop (suc b) rows) refl
