-- ===== src/ScheduleScope/Sparing.antt =====
-- src/obs_agent/schedule_scope.py: what the ownership of a schedule amounts to.
use recursive_harness_builde.Prelude.{
  ◌≡◌, ◌≢◌, refl, String, Option, none, some, true, false, List, [], ◌∷◌, ◌++◌, contains, lookup,
  lookup-insert, lookup-remove, ==_iff, ==_refl, string_eq, arith, ◌↔◌, ◌⊎◌, inl, inr, Option-cases,
  Bool-cases,
}
use recursive_harness_builde.ScheduleScope.Ownership.{
  Bead, Adoption, Ownership, given, is_open_row, is_closed, adoption, owner_of, creation_warnings,
  protection, retire, starts_with, lineage_in_branch,
}

module _ (o : Ownership) (schedule : String) (prefix : Option String) where
  -- The bead that the text names in the store is open.
  abbrev pub IsOpen : Option String → Type 0
  IsOpen name = (b : String) × (name ≡ some b) × (is_open_row (lookup b o.beads) ≡ true)

  abbrev pub adopted : Option String
  adopted = given (adoption o schedule prefix).bead

  -- A new schedule draws no warning exactly when its description names an open bead or the owners
  -- map does: a missing or closed bead in the one does not hide an open bead in the other.
  pub no_warning_iff : (creation_warnings o schedule prefix ≡ []) ↔ (IsOpen prefix ⊎ IsOpen adopted)
  unfolding creation_warnings owner_of
  no_warning_iff = (forth, back)
    where
      forth : creation_warnings o schedule prefix ≡ [] → IsOpen prefix ⊎ IsOpen adopted
      forth h = elim (Option-cases prefix) [
        | inl e ↦ elim (Option-cases adopted) [
          | inl n ↦ absurd (ground (arith, h, e, n))
          | inr (a, q) ↦ inr (a, q, ground (arith, h, e, q))
        ]
        | inr (p, e) ↦ elim (Bool-cases (is_open_row (lookup p o.beads))) [
          | inl found ↦ inl (p, e, found)
          | inr shut ↦ elim (Option-cases adopted) [
            | inl n ↦ absurd (ground (arith, h, e, n, shut))
            | inr (a, q) ↦ inr (a, q, ground (arith, h, e, q, shut))
          ]
        ]
      ]

      back : IsOpen prefix ⊎ IsOpen adopted → creation_warnings o schedule prefix ≡ []
      back (inl (p, e, found)) = ground (arith, e, found)
      back (inr (a, q, found)) = elim (Option-cases prefix) [
        | inl e ↦ ground (arith, e, q, found)
        | inr (p, e) ↦ elim (Bool-cases (is_open_row (lookup p o.beads))) [
          | inl known ↦ ground (arith, e, known)
          | inr shut ↦ ground (arith, e, shut, q, found)
        ]
      ]

  -- A sweep spares a schedule only if it has an open owner, so that it also draws no warning, and a
  -- sweep without a tree only if that owner is a responsibility.
  pub protected_owner :
      (tree : Option String)
      → (protection o schedule prefix tree).protected ≡ true
      → (creation_warnings o schedule prefix ≡ [])
        × ((b : String) × (row : Bead) × (owner_of o schedule prefix ≡ some b)
            × (lookup b o.beads ≡ some row)
            × (is_closed row ≡ false)
            × (tree ≡ none → contains row.labels "responsibility" ≡ true))
  unfolding creation_warnings protection is_open_row given
  protected_owner tree h = elim (Option-cases (owner_of o schedule prefix)) [
    | inl e ↦ absurd (ground (arith, h, e))
    | inr (b, e) ↦ elim (Option-cases (lookup b o.beads)) [
      | inl n ↦ absurd (ground (arith, h, e, n))
      | inr (row, q) ↦
          let shut : is_closed row ≡ false = ground (arith, h, e, q) in
          let labelled : tree ≡ none → contains row.labels "responsibility" ≡ true =
            λ n. ground (arith, h, e, q, n) in
          (ground (arith, h, e, q), (b, row, e, q, shut, labelled))
    ]
  ]

starts_with_iff :
    (candidate branch : List String)
    → (starts_with candidate branch ≡ true) ↔ ((rest : List String) × (candidate ≡ branch ++ rest))
unfolding starts_with
starts_with_iff candidate [] = (λ h. (candidate, refl), λ h. refl)
starts_with_iff [] (b ∷ bs) = (λ h. cc, λ (rest, e). cc)
starts_with_iff (c ∷ cs) (b ∷ bs) = (
  λ h.
      let (rest, e) = (starts_with_iff cs bs).0 (ground arith) in
      let same : c ≡ b = (==_iff c b).0 (ground arith) in (rest, cc),
  λ (rest, e).
      let same : c ≡ b = cc in
      let tails : cs ≡ bs ++ rest = cc in
      ground (arith, same, ==_refl b, (starts_with_iff cs bs).1 (rest, tails)),
)

-- A lineage is in a branch exactly when the branch is not empty and the lineage goes on from it.
branch_iff :
    (candidate branch : List String)
    → (lineage_in_branch candidate branch ≡ true)
      ↔ ((branch ≢ []) × ((rest : List String) × (candidate ≡ branch ++ rest)))
unfolding lineage_in_branch
branch_iff candidate [] = (λ h. cc, λ h. absurd (h.0 refl))
branch_iff candidate (b ∷ bs) = (
  λ h. ((λ e. cc), (starts_with_iff candidate (b ∷ bs)).0 h),
  λ h. (starts_with_iff candidate (b ∷ bs)).1 h.1,
)

-- A retired schedule has no entry in the owners map, and, without a bead in its description, no owner;
-- an entry that it had is kept among the retired ones, unless an older one is there.
pub retire_unowned :
    (schedule : String) (o : Ownership)
    → (lookup schedule (retire schedule o).owners ≡ none)
      × (owner_of (retire schedule o) schedule none ≡ none)
      × ((a : Adoption)
          → lookup schedule o.owners ≡ some a
          → lookup schedule o.retired ≡ none
          → lookup schedule (retire schedule o).retired ≡ some a)
unfolding retire owner_of given
retire_unowned schedule o =
    let gone = lookup-remove schedule schedule o.owners in
    let kept = λ (a : Adoption). lookup-insert schedule schedule a o.retired in
    elim (Option-cases (lookup schedule o.owners)) [
      | inl e ↦ (ground (arith, e), ground (arith, e), λ a f n. cc)
      | inr (a, e) ↦ (
        ground (arith, e, gone, ==_refl schedule),
        ground (arith, e, gone, ==_refl schedule),
        λ c f n. ground (arith, e, f, n, kept a, ==_refl schedule),
      )
    ]
