-- ===== src/Replay/Chain.antt =====
-- src/obs_agent/jsonl_replay.py: after a preparation the parents lead from the last selected row through the
-- whole selection.
use recursive_harness_builde.Prelude.{
  contains-append, IsDistinct, ℕ, zero, suc, ◌+◌, ◌-◌, ◌≤◌, ◌≡◌, sym, refl, ap, subst, ◌∙◌, inl,
  inr, Option, none, some, true, false, List, [], ◌∷◌, ◌++◌, ==_iff, ==_refl, nat_eq, contains,
  lookup, lookup-insert, insert, length, All, Entries, Bool-cases, append_nil, arith,
}
use recursive_harness_builde.Replay.Rows.{Row, RowMap, ok, keys, put, put_all, walk}
use recursive_harness_builde.Replay.Overlays.{same_parent, with_parent, relink, rows_of}
use recursive_harness_builde.Replay.Maps.{IsMap}

-- The rows with each one's parent the row before it, and the first one's `p`.
unfoldable pub linked : Option ℕ → RowMap → RowMap
linked p [] = []
linked p ((u, r) ∷ rows) = (u, with_parent p r) ∷ linked (some u) rows

-- The identifier of the last row, or `p` where there is none.
unfoldable pub last_of : Option ℕ → RowMap → Option ℕ
last_of p [] = p
last_of p ((u, r) ∷ rows) = last_of (some u) rows

same_parent_sound : (p q : Option ℕ) → same_parent p q ≡ true → p ≡ q
same_parent_sound none none h = refl
same_parent_sound none (some b) h = ground (arith, h)
same_parent_sound (some a) none h = ground (arith, h)
same_parent_sound (some a) (some b) h = ap some ((==_iff a b).0 h)

with_parent_same : (r : Row) (p : Option ℕ) → same_parent r.parent p ≡ true → r ≡ with_parent p r
with_parent_same r p h = ap (λ q. with_parent q r) (same_parent_sound r.parent p h)

put_overlay :
    (u : ℕ) (r : Row) (p : Option ℕ) (d : RowMap)
    → r.uuid ≡ some u
    → put d (with_parent p r) ≡ insert u (with_parent p r) d
put_overlay u r p d e =
    ap (λ (o : Option ℕ). elim o [ none ↦ d | some v ↦ insert v (with_parent p r) d ]) e

abbrev pub overlaid : ℕ → Option ℕ → RowMap → RowMap → RowMap
overlaid i p rows d = put_all d (rows_of (relink none none i p rows))

pub overlaid_same :
    (i u : ℕ) (p : Option ℕ) (r : Row) (rows d : RowMap)
    → same_parent r.parent p ≡ true
    → overlaid i p ((u, r) ∷ rows) d ≡ overlaid (suc i) (some u) rows d
unfolding relink
overlaid_same i u p r rows d e = rw e refl

pub overlaid_new :
    (i u : ℕ) (p : Option ℕ) (r : Row) (rows d : RowMap)
    → same_parent r.parent p ≡ false
    → r.uuid ≡ some u
    → overlaid i p ((u, r) ∷ rows) d ≡ overlaid (suc i) (some u) rows (insert u (with_parent p r) d)
unfolding relink rows_of put_all
overlaid_new i u p r rows d e n =
    rw e (
      ap (λ d. put_all d (rows_of (relink none none (suc i) (some u) rows)))
        (put_overlay u r p d n))

-- An identifier that is not selected keeps its row.
pub lookup_unselected :
    (v i : ℕ) (p : Option ℕ) (rows d : RowMap)
    → Entries (λ u r. r.uuid ≡ some u) rows
    → contains (keys rows) v ≡ false
    → lookup v (overlaid i p rows d) ≡ lookup v d
unfolding keys contains relink rows_of put_all
lookup_unselected v i p [] d h n = refl
lookup_unselected v i p ((u, r) ∷ rows) d h n = elim (Bool-cases (same_parent r.parent p)) [
  | inl e ↦
      ap (lookup v) (overlaid_same i u p r rows d e)
      ∙ lookup_unselected v (suc i) (some u) rows d h.1 (ground (arith, n))
  | inr e ↦
      ap (lookup v) (overlaid_new i u p r rows d e h.0)
      ∙ lookup_unselected v (suc i) (some u) rows (insert u (with_parent p r) d) h.1
          (ground (arith, n))
      ∙ lookup-insert u v (with_parent p r) d
      ∙ ground (arith, n)
]

pub Entries-insert_other :
    (w : ℕ) (s : Row) (d rows : RowMap)
    → contains (keys rows) w ≡ false
    → Entries (λ u r. lookup u d ≡ some r) rows
    → Entries (λ u r. lookup u (insert w s d) ≡ some r) rows
unfolding keys contains
Entries-insert_other w s d [] n h = tt
Entries-insert_other w s d ((u, r) ∷ rows) n h = (
  lookup-insert w u s d ∙ ground (arith, h.0, n, ==_iff w u, ==_iff u w),
  Entries-insert_other w s d rows (ground (arith, n)) h.1,
)

-- Each selected row is then found with the row before it as its parent.
pub overlaid-linked :
    (i : ℕ) (p : Option ℕ) (rows d : RowMap)
    → IsMap rows
    → Entries (λ u r. lookup u d ≡ some r) rows
    → Entries (λ u r. lookup u (overlaid i p rows d) ≡ some r) (linked p rows)
unfolding keys linked
overlaid-linked i p [] d m h = tt
overlaid-linked i p ((u, r) ∷ rows) d m h =
    let tail : IsMap rows = record { distinct = m.distinct.1; named = m.named.1 } in
    elim (Bool-cases (same_parent r.parent p)) [
      | inl e ↦
          subst
            (λ x.
              Entries (λ u r. lookup u x ≡ some r) ((u, with_parent p r) ∷ linked (some u) rows))
            (sym (overlaid_same i u p r rows d e))
            (
              lookup_unselected u (suc i) (some u) rows d m.named.1 m.distinct.0
                  ∙ h.0
                  ∙ ap some (with_parent_same r p e),
              overlaid-linked (suc i) (some u) rows d tail h.1,
            )
      | inr e ↦
          subst
            (λ x.
              Entries (λ u r. lookup u x ≡ some r) ((u, with_parent p r) ∷ linked (some u) rows))
            (sym (overlaid_new i u p r rows d e m.named.0))
            (
              lookup_unselected u (suc i) (some u) rows (insert u (with_parent p r) d) m.named.1
                    m.distinct.0
                  ∙ lookup-insert u u (with_parent p r) d
                  ∙ rw (==_refl u) refl,
              overlaid-linked (suc i) (some u) rows (insert u (with_parent p r) d) tail
                  (Entries-insert_other u (with_parent p r) d rows m.distinct.0 h.1),
            )
    ]

-- No identifier of the one list stands in the other.
abbrev IsApart : List ℕ → List ℕ → Type 0
IsApart us vs = All (λ u. contains vs u ≡ false) us

walk_step :
    (f u : ℕ) (r : Row) (d : RowMap) (seen : List ℕ)
    → contains seen u ≡ false
    → lookup u d ≡ some r
    → walk (suc f) d (some u) seen ≡ walk f d r.parent (u ∷ seen)
unfolding walk
walk_step f u r d seen n e = rw (walk, n, e) refl

-- `f`, and one more for each row.
unfoldable count : RowMap → ℕ → ℕ
count [] f = f
count (x ∷ rows) f = count rows (suc f)

count-length : (rows : RowMap) (f : ℕ) → count rows f ≡ length rows + f
unfolding count
count-length [] f = omega arith
count-length (x ∷ rows) f = omega (arith, count-length rows (suc f))

-- A walk from the last of the linked rows passes them all.
walk-linked :
    (f : ℕ) (p : Option ℕ) (rows d : RowMap) (seen : List ℕ)
    → IsDistinct (keys rows)
    → IsApart (keys rows) seen
    → Entries (λ u r. lookup u d ≡ some r) (linked p rows)
    → walk (count rows f) d (last_of p rows) seen ≡ walk f d p (keys rows ++ seen)
unfolding keys linked last_of count
walk-linked f p [] d seen m a h = refl
walk-linked f p ((u, r) ∷ rows) d seen m a h =
    walk-linked (suc f) (some u) rows d seen m.1 a.1 h.1
    ∙ walk_step f u (with_parent p r) d (keys rows ++ seen)
        (contains-append (keys rows) seen u ∙ rw (m.0, a.0) refl) h.0

IsApart-nil : (us : List ℕ) → IsApart us []
unfolding contains
IsApart-nil [] = tt
IsApart-nil (u ∷ us) = (refl, IsApart-nil us)

walk_root : (f : ℕ) (d : RowMap) (seen : List ℕ) → walk f d none seen ≡ ok seen
unfolding walk
walk_root zero d seen = refl
walk_root (suc f) d seen = refl

-- With fuel for each row, the walk returns them all.
pub walk_whole :
    (fuel : ℕ) (rows d : RowMap)
    → length rows ≤ fuel
    → IsDistinct (keys rows)
    → Entries (λ u r. lookup u d ≡ some r) (linked none rows)
    → walk fuel d (last_of none rows) [] ≡ ok (keys rows)
walk_whole fuel rows d l m h =
    ap (λ f. walk f d (last_of none rows) [])
      (omega (arith, count-length rows (fuel - length rows), l))
    ∙ walk-linked (fuel - length rows) none rows d [] m (IsApart-nil (keys rows)) h
    ∙ walk_root (fuel - length rows) d (keys rows ++ [])
    ∙ ap ok (append_nil (keys rows))
