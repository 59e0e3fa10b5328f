-- ===== src/ScheduleScope/Tests.antt =====
-- Runs of src/obs_agent/schedule_scope.py on concrete inputs.
use recursive_harness_builde.Prelude.{
  ◌≡◌, ◌↔◌, ◌⊎◌, refl, String, Option, none, some, true, [], ◌∷◌, contains, lookup, string_eq,
}
use recursive_harness_builde.ScheduleScope.Ownership.{
  Bead, Adoption, Ownership, given, is_open_row, adoption, owner_of, creation_warnings, protection,
}
use recursive_harness_builde.ScheduleScope.Sparing

abbrev closed : Bead
closed = record { status = some "closed"; labels = []; owner_team = none }

abbrev duty : Bead
duty = record { status = some "open"; labels = "responsibility" ∷ []; owner_team = none }

-- The description of the schedule names a closed bead, the owners map an open one.
abbrev adopted : Adoption
adopted = record { bead = some "ops-2"; owner_team = some "obs" }

abbrev store : Ownership
store = record {
  beads = ("ops-1", closed) ∷ ("ops-2", duty) ∷ [];
  owners = ("s1", adopted) ∷ [];
  retired = [];
}

no_warning_iff_example : (creation_warnings store "s1" (some "ops-1") ≡ []) ↔ (
    Sparing.IsOpen store "s1" (some "ops-1") (some "ops-1")
    ⊎ Sparing.IsOpen store "s1" (some "ops-1") (given (adoption store "s1" (some "ops-1")).bead))
no_warning_iff_example = Sparing.no_warning_iff store "s1" (some "ops-1")

abbrev no_tree : Option String
no_tree = none

spared : (protection store "s1" (some "ops-1") no_tree).protected ≡ true
unfolding protection owner_of given is_open_row lookup contains
spared = refl
