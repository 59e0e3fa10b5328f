-- ===== src/Replay/Maps.antt =====
-- src/obs_agent/jsonl_replay.py: the map of the latest rows, its identifiers and what is selected from it.
use recursive_harness_builde.Prelude.{
  IsDistinct, ℕ, ◌≤◌, ◌≡◌, refl, ◌∙◌, inl, inr, some, Option-cases, Bool, false, ◌||◌, List, [],
  ◌∷◌, ◌++◌, ◌==◌, ==_iff, ==_refl, nat_eq, contains, lookup, insert, length, Entries,
  Entries-insert, Bool-cases, arith,
}
use recursive_harness_builde.Replay.Rows.{Row, RowMap, keys, keep, put, put_all, effective}

-- Each identifier once, over a row that carries it.
pub record IsMap (d : RowMap) : Type 0 where
  pub distinct : IsDistinct (keys d)
  pub named : Entries (λ u r. r.uuid ≡ some u) d

contains-insert :
    (u v : ℕ) (r : Row) (d : RowMap)
    → contains (keys (insert u r d)) v ≡ (u == v || contains (keys d) v)
unfolding contains keys insert
contains-insert u v r [] = refl
contains-insert u v r ((w, s) ∷ d) = ground (arith, ==_iff w u, contains-insert u v r d)

IsDistinct-insert :
    (u : ℕ) (r : Row) (d : RowMap) → IsDistinct (keys d) → IsDistinct (keys (insert u r d))
unfolding contains keys insert
IsDistinct-insert u r [] h = (refl, tt)
IsDistinct-insert u r ((w, s) ∷ d) h = elim (Bool-cases (w == u)) [
  | inl e ↦ rw e h
  | inr e ↦ rw e (
    contains-insert u w r d ∙ ground (arith, e, ==_iff w u, ==_iff u w, h.0),
    IsDistinct-insert u r d h.1,
  )
]

IsMap-put : (d : RowMap) (r : Row) → IsMap d → IsMap (put d r)
IsMap-put d r h = elim (Option-cases r.uuid) [
  | inl e ↦ rw (put, e) h
  | inr (u, e) ↦
      rw (put, e)
        (record {
          distinct = IsDistinct-insert u r d h.distinct;
          named = Entries-insert (λ u r. r.uuid ≡ some u) u r d e h.named;
        })
]

IsMap-put_all : (d : RowMap) (rows : List Row) → IsMap d → IsMap (put_all d rows)
unfolding put_all
IsMap-put_all d [] h = h
IsMap-put_all d (r ∷ rows) h = IsMap-put_all (put d r) rows (IsMap-put d r h)

pub effective-IsMap : (rows : List Row) → IsMap (effective rows)
unfolding effective keys
effective-IsMap rows = IsMap-put_all [] rows (record { distinct = tt; named = tt })

lookup-head : (u : ℕ) (r : Row) (d : RowMap) → lookup u ((u, r) ∷ d) ≡ some r
unfolding lookup
lookup-head u r d = rw (==_refl u) refl

Entries-behind :
    (w : ℕ) (s : Row) (d rows : RowMap)
    → contains (keys rows) w ≡ false
    → Entries (λ u r. lookup u d ≡ some r) rows
    → Entries (λ u r. lookup u ((w, s) ∷ d) ≡ some r) rows
unfolding contains keys lookup
Entries-behind w s d [] n h = tt
Entries-behind w s d ((u, r) ∷ rows) n h = (
  ground (arith, h.0, n, ==_iff w u, ==_iff u w),
  Entries-behind w s d rows (ground (arith, n)) h.1,
)

module _ (p : ℕ × Row → Bool) where
  pub contains-keep :
      (u : ℕ) (d : RowMap) → contains (keys d) u ≡ false → contains (keys (keep p d)) u ≡ false
  unfolding contains keys keep
  contains-keep u [] h = h
  contains-keep u (x ∷ d) h = elim (Bool-cases (p x)) [
    | inl e ↦ rw e (ground (arith, h, contains-keep u d))
    | inr e ↦ rw e (contains-keep u d (ground (arith, h)))
  ]

  pub IsMap-keep : (d : RowMap) → IsMap d → IsMap (keep p d)
  unfolding contains keys keep
  IsMap-keep [] h = h
  IsMap-keep (x ∷ d) h =
      let rest = IsMap-keep d (record { distinct = h.distinct.1; named = h.named.1 }) in
      elim (Bool-cases (p x)) [
        | inl e ↦ rw e (record {
          distinct = (contains-keep x.0 d h.distinct.0, rest.distinct);
          named = (h.named.0, rest.named);
        })
        | inr e ↦ rw e rest
      ]

  -- Selected rows are those of the map.
  pub keep-Entries :
      (d : RowMap) → IsDistinct (keys d) → Entries (λ u r. lookup u d ≡ some r) (keep p d)
  unfolding contains keys keep
  keep-Entries [] h = tt
  keep-Entries (x ∷ d) h =
      let rest =
        Entries-behind x.0 x.1 d (keep p d) (contains-keep x.0 d h.0) (keep-Entries d h.1) in
      elim (Bool-cases (p x)) [ inl e ↦ rw e (lookup-head x.0 x.1 d, rest) | inr e ↦ rw e rest ]

  pub length-keep-le : (d : RowMap) → length (keep p d) ≤ length d
  unfolding keep
  length-keep-le [] = omega arith
  length-keep-le (x ∷ d) = elim (Bool-cases (p x)) [
    | inl e ↦ rw e (omega (arith, length-keep-le d))
    | inr e ↦ rw e (omega (arith, length-keep-le d))
  ]

pub put_all-append :
    (d : RowMap) (xs ys : List Row) → put_all d (xs ++ ys) ≡ put_all (put_all d xs) ys
unfolding put_all
put_all-append d [] ys = refl
put_all-append d (r ∷ xs) ys = put_all-append (put d r) xs ys
