-- ===== src/Health/Inherited.antt =====
-- src/obs_agent/jsonl_health.py: what a row that the health calls safe can have above it.
use recursive_harness_builde.Prelude.{
  contains-append, ℕ, ◌≤◌, ◌≡◌, sym, refl, ap, subst, ◌∙◌, inl, inr, Option, none, some,
  Option-cases, Bool, true, false, List, [], ◌∷◌, ◌++◌, contains, lookup, insert, Entries,
  Entries-insert, Entries-lookup, leb, Bool-cases, ==_iff, ==_refl, ◌==◌, nat_eq, arith,
  if◌then◌else◌,
}
use recursive_harness_builde.Replay.Rows.{Row, ok, keys}
use recursive_harness_builde.Replay.Select.{select_replay_entries}
use recursive_harness_builde.Replay.Inversion.{and_then-ok}
use recursive_harness_builde.Health.Chains.{Parents, collect_chain_unsafe}
use recursive_harness_builde.Health.Verdict.{IsSafe, root, absent, child}
use recursive_harness_builde.Health.Equal.{collect_chain_unsafe-IsSafe}
use recursive_harness_builde.Health.Entries.{
  Entry, EntryMap, with_line, put_entry, put_entries, is_poison,
}
use recursive_harness_builde.Health.Recovered.{parent_of}
use recursive_harness_builde.Health.Above.{IsAbove, here, up}
use recursive_harness_builde.Health.Analysis.{
  Health, Tail, parents_of, map_rows, active, uuids_where, tail_poison, health_of, analyze,
  is_uuid_safe,
}

nothing-IsAbove : (d : Parents) (c : Option ℕ) (v : ℕ) → c ≡ none → ¬ IsAbove d c v
nothing-IsAbove d c v e here = cc e
nothing-IsAbove d c v e (up a) = cc e

-- Nothing above a safe row is poisoned.
above-IsSafe :
    (d : Parents) (poison : List ℕ) (c : Option ℕ) (v : ℕ)
    → IsSafe d poison c
    → IsAbove d c v
    → contains poison v ≡ false
above-IsSafe d poison c v root a = absurd (nothing-IsAbove d none v refl a)
above-IsSafe d poison c v (absent n e) here = n
above-IsSafe d poison c v (child n e s) here = n
above-IsSafe d poison c v (absent {u = u} n e) (up a) =
    absurd (nothing-IsAbove d (parent_of d u) v (rw (parent_of, e) refl) a)
above-IsSafe d poison c v (child {u = u} {p = p} n e s) (up a) =
    let same : parent_of d u ≡ p = rw (parent_of, e) refl in
    above-IsSafe d poison p v s (subst (λ c. IsAbove d c v) same a)

-- Each entry stands under its own identifier.
abbrev IsNamed : EntryMap → Type 0
IsNamed d = Entries (λ u e. e.row.uuid ≡ some u) d

-- `put_entry` by the identifier.
abbrev put_at : Entry → EntryMap → Option ℕ → EntryMap
put_at e d o = elim o [
  | none ↦ d
  | some u ↦ insert u (elim (lookup u d) [ none ↦ e | some old ↦ with_line old.line_no e ]) d
]

named_at_line :
    (u : ℕ) (e : Entry) (o : Option Entry)
    → e.row.uuid ≡ some u
    → (elim o as (λ o. Entry) [ none ↦ e | some old ↦ with_line old.line_no e ]).row.uuid ≡ some u
named_at_line u e none n = n
named_at_line u e (some old) n = n

put_entry-IsNamed : (e : Entry) (d : EntryMap) → IsNamed d → IsNamed (put_entry d e)
put_entry-IsNamed e d h = elim (Option-cases e.row.uuid) [
  | inl n ↦ subst IsNamed (ap (put_at e d) (sym n)) h
  | inr (u, n) ↦ subst IsNamed (ap (put_at e d) (sym n)) (
      Entries-insert (λ u e. e.row.uuid ≡ some u) u
        (elim (lookup u d) as (λ o. Entry) [ none ↦ e | some old ↦ with_line old.line_no e ]) d
        (named_at_line u e (lookup u d) n) h)
]

put_entries-IsNamed : (d : EntryMap) (es : List Entry) → IsNamed d → IsNamed (put_entries d es)
unfolding put_entries
put_entries-IsNamed d [] h = h
put_entries-IsNamed d (e ∷ es) h = put_entries-IsNamed (put_entry d e) es (put_entry-IsNamed e d h)

uuids_where-cons :
    (p : Entry → Bool) (e : Entry) (es : List Entry) (u : ℕ)
    → e.row.uuid ≡ some u
    → uuids_where p (e ∷ es) ≡ (if p e then u ∷ uuids_where p es else uuids_where p es)
unfolding uuids_where
uuids_where-cons p e es u n =
    ap
      (λ (o : Option ℕ). elim o as (λ o. List ℕ) [
        | none ↦ uuids_where p es
        | some u ↦ if p e then u ∷ uuids_where p es else uuids_where p es
      ])
      n

contains_later :
    (p : Entry → Bool) (e : Entry) (es : List Entry) (v : ℕ)
    → contains (uuids_where p es) v ≡ true
    → contains (uuids_where p (e ∷ es)) v ≡ true
unfolding contains uuids_where
contains_later p e es v h = ground (arith, h)

contains-uuids_where :
    (p : Entry → Bool) (us : List ℕ) (v : ℕ) (e : Entry) (d : EntryMap)
    → lookup v d ≡ some e
    → e.row.uuid ≡ some v
    → contains us v ≡ true
    → p e ≡ true
    → contains (uuids_where p (active us d)) v ≡ true
unfolding uuids_where active lookup contains
contains-uuids_where p us v e [] l n h k = ground (arith, l)
contains-uuids_where p us v e ((w, f) ∷ d) l n h k = elim (Bool-cases (w == v)) [
  | inl b ↦
      let same : e ≡ f = ground (arith, l, b) in
      rw (ap (contains us) ((==_iff w v).0 b) ∙ h) (
        subst (λ f. contains (uuids_where p (f ∷ active us d)) v ≡ true) same
          (ap (λ us. contains us v) (uuids_where-cons p e (active us d) v n)
            ∙ rw (k, ==_refl v) refl))
  | inr b ↦
      let rest = contains-uuids_where p us v e d (ground (arith, l, b)) n h k in
      elim (Bool-cases (contains us w)) [
        | inl c ↦ rw c (contains_later p f (active us d) v rest)
        | inr c ↦ rw c rest
      ]
]

tail_poison-first :
    (t : Tail) (es : List Entry) (f : Entry)
    → t.first_unsafe ≡ some f
    → tail_poison t es ≡ uuids_where (λ e. leb f.line_no e.line_no) es ++ t.poison
tail_poison-first t es f e =
    ap
      (λ (o : Option Entry). elim o as (λ o. List ℕ) [
        | none ↦ t.poison
        | some f ↦ uuids_where (λ e. leb f.line_no e.line_no) es ++ t.poison
      ])
      e

not_unsafe :
    (h : Health) (u : ℕ) → is_uuid_safe h (some u) ≡ true → contains h.unsafe_uuids u ≡ false
not_unsafe h u s = ground (arith, s)

-- What counts as poison for the tail does not stand above a row outside the unsafe ones.
tail-IsAbove :
    (d : EntryMap) (es : List Entry) (others : List ℕ) (t : Tail) (u v : ℕ) (f : Entry)
    → contains (collect_chain_unsafe (parents_of d) (tail_poison t es) ++ others) u ≡ false
    → t.first_unsafe ≡ some f
    → contains (uuids_where (λ x. leb f.line_no x.line_no) es) v ≡ true
    → ¬ IsAbove (parents_of d) (some u) v
tail-IsAbove d es others t u v f s e c = λ a.
    let poison = tail_poison t es in
    let out : contains (collect_chain_unsafe (parents_of d) poison) u ≡ false =
      ground (arith, s, contains-append (collect_chain_unsafe (parents_of d) poison) others u) in
    let safe = (collect_chain_unsafe-IsSafe (parents_of d) poison u).0 out in
    let clean : contains poison v ≡ false = above-IsSafe (parents_of d) poison (some u) v safe a in
    ground (
      arith,
      clean,
      ap (λ us. contains us v) (tail_poison-first t es f e),
      contains-append (uuids_where (λ x. leb f.line_no x.line_no) es) t.poison v,
      c,
    )

ok-injective : {A : Type 0} (a b : A) → ok a ≡ ok b → a ≡ b
ok-injective a b e = cc e

module _ (is_completed : List Row → Bool) where
  -- `f` is the unsafe tail of a health by which `u` is safe.
  abbrev IsTail : Health → ℕ → Entry → Type 0
  IsTail h u f = (is_uuid_safe h (some u) ≡ true) × (h.tail.first_unsafe ≡ some f)

  health_of-IsAbove :
      (d : EntryMap) (chain : List ℕ) (u v : ℕ) (e f : Entry)
      → IsNamed d
      → IsTail (health_of is_completed d chain (active chain d)) u f
      → lookup v d ≡ some e
      → contains chain v ≡ true
      → f.line_no ≤ e.line_no
      → ¬ IsAbove (parents_of d) (some u) v
  unfolding health_of
  health_of-IsAbove d chain u v e f n (s, t) l c k =
      let h = health_of is_completed d chain (active chain d) in
      tail-IsAbove d (active chain d) (uuids_where is_poison (active chain d)) h.tail u v f
        (not_unsafe h u s) t
        (contains-uuids_where (λ x. leb f.line_no x.line_no) chain v e d l
          (Entries-lookup (λ u e. e.row.uuid ≡ some u) v e d n l) c (ground (arith, k)))

  -- A row that is safe inherits nothing from a tail that is not: where the analysis of a file finds an unsafe
  -- tail, from the entry `f` on, and calls the row `u` safe, no entry of the analyzed chain whose line is that
  -- of `f` or later stands on the chain of parents from `u`, nor is `u` one of them.
  pub analyze-keeps_tail_out :
      (spread : List ℕ → List ℕ) (branch : Option ℕ) (entries : List Entry) (h : Health) (u v : ℕ)
      (e f : Entry)
      → analyze is_completed spread branch entries ≡ ok h
      → is_uuid_safe h (some u) ≡ true
      → h.tail.first_unsafe ≡ some f
      → lookup v (put_entries [] entries) ≡ some e
      → contains h.chain_uuids v ≡ true
      → f.line_no ≤ e.line_no
      → ¬ IsAbove (parents_of (put_entries [] entries)) (some u) v
  unfolding analyze health_of
  analyze-keeps_tail_out spread branch entries h u v e f a s t l c k =
      let d = put_entries [] entries in
      let (selected, r, q) =
        and_then-ok (select_replay_entries spread false branch (map_rows d))
          (λ selected. ok (health_of is_completed d (keys selected) (active (keys selected) d))) h
          a in
      let same : health_of is_completed d (keys selected) (active (keys selected) d) ≡ h =
        ok-injective (health_of is_completed d (keys selected) (active (keys selected) d)) h q in
      let named : IsNamed d = put_entries-IsNamed [] entries tt in
      health_of-IsAbove d (keys selected) u v e f named
        (subst (λ h. IsTail h u f) (sym same) (s, t)) l
        (subst (λ h. contains h.chain_uuids v ≡ true) (sym same) c) k
