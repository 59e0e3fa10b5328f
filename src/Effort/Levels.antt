-- ===== src/Effort/Levels.antt =====
-- src/obs_agent/effort.py: the levels, and which one a session gets. `tidy` is `str.strip` and then
-- `str.lower`.
use recursive_harness_builde.Prelude.{
  String, Option, none, some, Bool, ◌==◌, string_eq, List, [], ◌∷◌, lookup, if◌then◌else◌,
}

pub data Level : Type 0 where
  low medium high xhigh max auto : Level

abbrev level_names : List (String × Level)
level_names =
    ("low", low)
    ∷ ("medium", medium)
    ∷ ("high", high)
    ∷ ("xhigh", xhigh)
    ∷ ("max", max)
    ∷ ("auto", auto)
    ∷ []

-- `normalize_effort` of a string; `none` where it raises.
unfoldable pub normalize : (String → String) → String → Option Level
normalize tidy value = lookup (tidy value) level_names

-- A value that is there and not empty.
abbrev pub given : Option String → Option String
given none = none
given (some v) = if v == "" then none else some v

-- `next(...)`
unfoldable pub first_given : List (Option String) → String
first_given [] = "auto"
first_given (v ∷ vs) = elim (given v) [ none ↦ first_given vs | some w ↦ w ]

abbrev pub or_default : (String → String) → String → Option Level → Option Level
or_default tidy default none = none
or_default tidy default (some auto) = normalize tidy default
or_default tidy default (some level) = some level

-- `resolve_effort`, from the four places in their order and the default of the model.
unfoldable pub resolve :
    (String → String) → String → (override session configured shell : Option String) → Option Level
resolve tidy default override session configured shell =
    or_default tidy default
      (normalize tidy (first_given (override ∷ session ∷ configured ∷ shell ∷ [])))

-- What a child is asked for: nothing, a value that is not a string, or a text.
pub data Request : Type 0 where
  unasked unreadable : Request
  asked : String → Request

pub data Choice : Type 0 where
  raised inherits_default : Choice
  named : String → Choice
  chosen : Level → Choice

abbrev chosen_of : Option Level → Choice
chosen_of none = raised
chosen_of (some level) = chosen level

-- `child_effort_override`; `inherits_default` is its `None`.
unfoldable pub child_override : (String → String) → Request → String → Bool → Option String → Choice
child_override tidy unreadable parent has_model session = raised
child_override tidy (asked value) parent has_model session =
    if tidy value == "inherit" then named parent else chosen_of (normalize tidy value)
child_override tidy unasked parent has_model session = elim (given session) [
  | some value ↦ chosen_of (normalize tidy value)
  | none ↦ if has_model then inherits_default else named parent
]
