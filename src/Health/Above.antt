-- ===== src/Health/Above.antt =====
-- src/obs_agent/jsonl_health.py: the walks of `_recovered_poison_uuids` find the rows above the answers, and no
-- other.
use recursive_harness_builde.Prelude.{
  ℕ, zero, suc, ◌+◌, ◌<◌, ◌≡◌, ◌↔◌, sym, refl, ap, subst, ◌⊎◌, inl, inr, Option, none, some,
  Option-cases, true, ◌||◌, ◌&&◌, List, [], ◌∷◌, contains, lookup, length, All-contains, Bool-cases,
  IsDistinct, IsWithin, pigeonhole, ==_iff, ==_refl, ◌==◌, nat_eq, arith,
}
use recursive_harness_builde.Health.Chains.{Parents, ids}
use recursive_harness_builde.Health.Marked.{contains_behind, contains-ids, length-ids}
use recursive_harness_builde.Health.Entries.{Entry}
use recursive_harness_builde.Health.Boundaries.{Targets}
use recursive_harness_builde.Health.Recovered.{
  parent_of, above, above_all, answer_parents, common, recovered_poison,
}

known :
    (v : ℕ) (seen ancestry : List ℕ)
    → IsWithin ancestry seen
    → (contains ancestry v || contains seen v) ≡ true
    → contains ancestry v ≡ true
known v seen ancestry w h = elim (Bool-cases (contains seen v)) [
  | inl e ↦ All-contains (λ u. contains ancestry u ≡ true) seen v w e
  | inr e ↦ ground (arith, h, e)
]

module _ (d : Parents) where
  -- `u` stands on the chain of parents that begins here.
  pub data IsAbove : Option ℕ → ℕ → Type 0 where
    here : {u : ℕ} → IsAbove (some u) u
    up : {v u : ℕ} → IsAbove (parent_of d v) u → IsAbove (some v) u

  -- The row stands above one of these.
  pub IsAboveAny : List (Option ℕ) → ℕ → Type 0
  IsAboveAny [] u = ⊥
  IsAboveAny (c ∷ cs) u = IsAbove c u ⊎ IsAboveAny cs u

  above_sound :
      (fuel : ℕ) (c : Option ℕ) (seen ancestry : List ℕ) (u : ℕ)
      → contains (above fuel d c seen ancestry) u ≡ true
      → (contains ancestry u ≡ true) ⊎ IsAbove c u
  unfolding above contains
  above_sound zero none seen ancestry u h = inl h
  above_sound (suc fuel) none seen ancestry u h = inl h
  above_sound zero (some v) seen ancestry u h = inl h
  above_sound (suc fuel) (some v) seen ancestry u h =
      elim (Bool-cases (contains ancestry v || contains seen v)) [
        | inl a ↦ inl (rw (above, a) at h)
        | inr a ↦
            elim (above_sound fuel (parent_of d v) (v ∷ seen) (v ∷ ancestry) u
              (rw (above, a) at h)) [
                | inl b ↦ elim (Bool-cases (v == u)) [
                  | inl e ↦ inr (subst (λ u. IsAbove (some v) u) ((==_iff v u).0 e) here)
                  | inr e ↦ inl (ground (arith, b, e))
                ]
                | inr b ↦ inr (up b)
              ]
      ]

  -- The cursor is at an end, or among these rows.
  abbrev IsIn : List ℕ → Option ℕ → Type 0
  IsIn us none = Unit
  IsIn us (some u) = contains us u ≡ true

  -- With a row its parent is there too, but for the cursor.
  abbrev IsClosed : List ℕ → Type 0
  IsClosed us = (u : ℕ) → contains us u ≡ true → IsIn us (parent_of d u)

  abbrev IsClosedBut : Option ℕ → List ℕ → Type 0
  IsClosedBut c us = (u : ℕ) → contains us u ≡ true → (parent_of d u ≡ c) ⊎ IsIn us (parent_of d u)

  IsIn-behind : (v : ℕ) (us : List ℕ) (c : Option ℕ) → IsIn us c → IsIn (v ∷ us) c
  unfolding contains
  IsIn-behind v us none h = tt
  IsIn-behind v us (some u) h = ground (arith, h)

  close : (c : Option ℕ) (us : List ℕ) → IsClosedBut c us → IsIn us c → IsClosed us × IsIn us c
  close c us h i = (λ u k. elim (h u k) [ inl e ↦ subst (IsIn us) (sym e) i | inr j ↦ j ], i)

  closed_behind :
      (v : ℕ) (us : List ℕ) → IsClosedBut (some v) us → IsClosedBut (parent_of d v) (v ∷ us)
  unfolding contains
  closed_behind v us h u k = elim (Bool-cases (v == u)) [
    | inl e ↦ inl (ap (parent_of d) (sym ((==_iff v u).0 e)))
    | inr e ↦ elim (h u (ground (arith, k, e))) [
      | inl p ↦ inr (subst (IsIn (v ∷ us)) (sym p) (rw (==_refl v) refl))
      | inr i ↦ inr (IsIn-behind v us (parent_of d u) i)
    ]
  ]

  next-IsWithin :
      (v : ℕ) (seen : List ℕ)
      → (some v ≡ none) ⊎ IsWithin (ids d) seen
      → (parent_of d v ≡ none) ⊎ IsWithin (ids d) (v ∷ seen)
  next-IsWithin v seen (inl e) = absurd (cc e)
  next-IsWithin v seen (inr i) = elim (Option-cases (lookup v d)) [
    | inl o ↦ inl (rw (parent_of, o) refl)
    | inr (p, o) ↦ inr (contains-ids v p d o, i)
  ]

  -- What a walk leaves: the rows that were there, the cursor, and all their parents.
  abbrev IsClimbed : Option ℕ → List ℕ → List ℕ → Type 0
  IsClimbed c ancestry result =
      IsClosed result
      × IsIn result c
      × ((u : ℕ) → contains ancestry u ≡ true → contains result u ≡ true)

  above-IsClimbed :
      (fuel : ℕ) (c : Option ℕ) (seen ancestry : List ℕ)
      → IsClosedBut c ancestry
      → IsWithin ancestry seen
      → IsDistinct seen
      → (c ≡ none) ⊎ IsWithin (ids d) seen
      → length d < fuel + length seen
      → IsClimbed c ancestry (above fuel d c seen ancestry)
  unfolding above contains
  above-IsClimbed zero none seen ancestry h w n k l =
      let (a, b) = close none ancestry h tt in (a, b, λ u e. e)
  above-IsClimbed (suc fuel) none seen ancestry h w n k l =
      let (a, b) = close none ancestry h tt in (a, b, λ u e. e)
  above-IsClimbed zero (some v) seen ancestry h w n (inl e) l = absurd (cc e)
  above-IsClimbed zero (some v) seen ancestry h w n (inr i) l =
      absurd (omega (arith, l, pigeonhole seen (ids d) n i, length-ids d))
  above-IsClimbed (suc fuel) (some v) seen ancestry h w n k l =
      elim (Bool-cases (contains ancestry v || contains seen v)) [
        | inl a ↦
            rw (above, a)
              (let i : contains ancestry v ≡ true = known v seen ancestry w a in
                let (x, y) = close (some v) ancestry h i in (x, y, λ u e. e))
        | inr a ↦
            rw (above, a)
              (let (x, y, z) =
                  above-IsClimbed fuel (parent_of d v) (v ∷ seen) (v ∷ ancestry)
                    (closed_behind v ancestry h)
                    (rw (==_refl v) refl, contains_behind v seen ancestry w) (ground (arith, a), n)
                    (next-IsWithin v seen k) (omega (arith, l)) in
                (x, z v (rw (==_refl v) refl), λ u e. z u (ground (arith, e))))
      ]

  -- What is closed and has the row where a chain begins has the rows on it.
  closed-IsAbove :
      (us : List ℕ) (c : Option ℕ) (u : ℕ)
      → IsClosed us
      → IsIn us c
      → IsAbove c u
      → contains us u ≡ true
  closed-IsAbove us c u h i here = i
  closed-IsAbove us c u h i (up {v = v} a) = closed-IsAbove us (parent_of d v) u h (h v i) a

  above_all-IsAboveAny :
      (cs : List (Option ℕ)) (ancestry : List ℕ) (u : ℕ)
      → IsClosed ancestry
      → (contains (above_all d cs ancestry) u ≡ true)
        ↔ ((contains ancestry u ≡ true) ⊎ IsAboveAny cs u)
  unfolding above_all IsAboveAny
  above_all-IsAboveAny [] ancestry u h = (λ e. inl e, λ s. elim s [ inl e ↦ e | inr x ↦ absurd x ])
  above_all-IsAboveAny (c ∷ cs) ancestry u h =
      let (x, y, z) =
        above-IsClimbed (suc (length d)) c [] ancestry (λ v e. inr (h v e)) tt tt (inr tt)
          (omega arith) in
      let (f, g) = above_all-IsAboveAny cs (above (suc (length d)) d c [] ancestry) u x in
      (
        λ e. elim (f e) [
          | inl a ↦ elim (above_sound (suc (length d)) c [] ancestry u a) [
            | inl b ↦ inl b
            | inr b ↦ inr (inl b)
          ]
          | inr a ↦ inr (inr a)
        ],
        λ s. elim s [
          | inl a ↦ g (inl (z u a))
          | inr (inl a) ↦
              g (inl (closed-IsAbove (above (suc (length d)) d c [] ancestry) c u x y a))
          | inr (inr a) ↦ g (inr a)
        ],
      )

contains-common :
    (us vs : List ℕ) (u : ℕ) → contains (common us vs) u ≡ (contains us u && contains vs u)
unfolding contains common
contains-common us [] u = ground (arith)
contains-common us (v ∷ vs) u = elim (Bool-cases (v == u)) [
  | inl e ↦ ground (arith, e, ap (contains us) ((==_iff v u).0 e), contains-common us vs u)
  | inr e ↦ ground (arith, e, contains-common us vs u)
]

-- The walks that stop at a row that was visited find what the chains of parents say: a row is recovered
-- exactly if it is poisoned and stands on the chain above a complete answer of the assistant.
pub recovered_poison-IsAboveAny :
    (targets : Targets) (d : Parents) (poison : List ℕ) (es : List Entry) (u : ℕ)
    → (contains (recovered_poison targets d poison es) u ≡ true)
      ↔ ((contains poison u ≡ true) × IsAboveAny d (answer_parents targets es) u)
unfolding recovered_poison contains
recovered_poison-IsAboveAny targets d [] es u = (λ e. absurd (cc e), λ h. absurd (cc h.0))
recovered_poison-IsAboveAny targets d (p ∷ poison) es u =
    let (f, g) = above_all-IsAboveAny d (answer_parents targets es) [] u (λ v e. absurd (cc e)) in
    let c = contains-common (above_all d (answer_parents targets es) []) (p ∷ poison) u in
    (
      λ e. (
        ground (arith, e, c),
        elim (f (ground (arith, e, c))) [ inl n ↦ absurd (cc n) | inr k ↦ k ],
      ),
      λ h. ground (arith, g (inr h.1), h.0, c),
    )
