-- ===== src/ScheduleScope/Ownership.antt =====
-- src/obs_agent/schedule_scope.py: `owner_of`, `creation_warnings`, `protection` and the change that
-- `retire_schedule_owner` makes. The bead id that `_PREFIX` finds is an argument.
use recursive_harness_builde.Prelude.{
  String, Option, none, some, Bool, true, false, ◌&&◌, ◌||◌, not, List, [], ◌∷◌, contains, is_some,
  lookup, insert, remove, ◌==◌, string_eq, if◌then◌else◌,
}

-- The keys of a row of the Beads store that are read.
pub record Bead : Type 0 where
  pub status : Option String
  pub labels : List String
  pub owner_team : Option String

-- An entry of the owners map.
pub record Adoption : Type 0 where
  pub bead : Option String
  pub owner_team : Option String

pub record Ownership : Type 0 where
  pub beads : List (String × Bead)
  pub owners : List (String × Adoption)
  pub retired : List (String × Adoption)

-- `self.owners.get(schedule_id) or {}`
abbrev pub adoption_of : Option Adoption → Adoption
adoption_of none = record { bead = none; owner_team = none }
adoption_of (some a) = a

abbrev pub is_text : Option String → String → Bool
is_text none s = false
is_text (some t) s = t == s

abbrev pub is_closed : Bead → Bool
is_closed b = is_text b.status "closed"

-- Python's truth of a text
unfoldable pub given : Option String → Option String
given none = none
given (some s) = if s == "" then none else some s

-- A bead that the store has, and that is not closed.
unfoldable pub is_open_row : Option Bead → Bool
is_open_row none = false
is_open_row (some b) = not (is_closed b)

pub data Warning : Type 0 where
  no_owner orphaned : Warning

module _ (o : Ownership) (schedule : String) (prefix : Option String) where
  abbrev pub adoption : Adoption
  adoption = adoption_of (lookup schedule o.owners)

  -- `owner_of`
  unfoldable pub owner_of : Option String
  owner_of = elim prefix [
    | none ↦ given adoption.bead
    | some p ↦
        if is_open_row (lookup p o.beads) || not (is_some (given adoption.bead))
        then some p
        else given adoption.bead
  ]

  -- `creation_warnings`
  unfoldable pub creation_warnings : List Warning
  creation_warnings = elim (owner_of) [
    | none ↦ no_owner ∷ []
    | some b ↦ if is_open_row (lookup b o.beads) then [] else orphaned ∷ []
  ]

-- `Protection`, less its reason
pub record Protection : Type 0 where
  pub protected : Bool
  pub owner_bead : Option String

-- `tree and owner_team and owner_team != tree`
abbrev pub is_foreign : Option String → Option String → Bool
is_foreign none team = false
is_foreign (some t) none = false
is_foreign (some t) (some team) = not (team == t)

-- `(row.get("metadata") or {}).get("owner_team") or adoption.get("owner_team")`
abbrev pub team_of : Option String → Option String → Option String
team_of none other = given other
team_of (some t) other = if t == "" then given other else some t

abbrev pub protection_by : Option String → Adoption → String → Option Bead → Protection
protection_by tree a b none = record { protected = false; owner_bead = some b }
protection_by tree a b (some row) =
    if is_closed row
    then record { protected = false; owner_bead = some b }
    else if contains row.labels "responsibility"
    then record { protected = true; owner_bead = some b }
    else if is_foreign (given tree) (team_of row.owner_team a.owner_team)
    then record { protected = true; owner_bead = some b }
    else record { protected = false; owner_bead = some b }

-- `protection`
unfoldable pub protection : Ownership → String → Option String → Option String → Protection
protection o schedule prefix tree = elim (owner_of o schedule prefix) [
  | none ↦ record { protected = false; owner_bead = none }
  | some b ↦ protection_by tree (adoption o schedule prefix) b (lookup b o.beads)
]

abbrev pub keep_first :
    Option Adoption → String → Adoption → List (String × Adoption) → List (String × Adoption)
keep_first none schedule a retired = insert schedule a retired
keep_first (some old) schedule a retired = retired

-- The change of `retire_schedule_owner` to the owners map, less the time and the note that it adds to
-- a retired entry.
unfoldable pub retire : String → Ownership → Ownership
retire schedule o = elim (lookup schedule o.owners) [
  | none ↦ o
  | some a ↦ record o {
    owners = remove schedule o.owners;
    retired = keep_first (lookup schedule o.retired) schedule a o.retired;
  }
]

-- `lineage_in_branch`
unfoldable pub starts_with : List String → List String → Bool
starts_with candidate [] = true
starts_with [] (b ∷ bs) = false
starts_with (c ∷ cs) (b ∷ bs) = c == b && starts_with cs bs

unfoldable pub lineage_in_branch : List String → List String → Bool
unfolding starts_with
lineage_in_branch candidate [] = false
lineage_in_branch candidate (b ∷ bs) = starts_with candidate (b ∷ bs)
