-- ===== src/CreditLimit/Clock.antt =====
-- src/obs_agent/credit_limit.py: `_parse_clock_reset` and `parse_reset_at`, from the groups that the
-- regular expressions found. Times are whole seconds; the calendar is an argument.
use recursive_harness_builde.Prelude.{
  ℕ, ◌+◌, ◌*◌, ◌%◌, String, Option, none, some, ◌&&◌, ◌||◌, not, List, [], ◌∷◌, ltb, leb, lookup,
  string_eq, if◌then◌else◌,
}

pub data Half : Type 0 where
  am pm : Half

pub data TimeUnit : Type 0 where
  days hours minutes seconds : TimeUnit

-- The groups of `_RESET_CLOCK`: the month in lower case with its day, if there is one.
pub record ClockGroups : Type 0 where
  pub month_day : Option (String × ℕ)
  pub hour : ℕ
  pub minute : Option ℕ
  pub half : Option Half
  pub zone : Option String

-- The first match of each pattern that `parse_reset_at` searches for.
pub record Found : Type 0 where
  pub epoch : Option ℕ
  pub in_seconds : Option ℕ
  pub duration : Option (List (ℕ × TimeUnit))
  pub clock : Option ClockGroups

-- `datetime` in the zone of a name: the year at a time, the time of a date, if there is such a date,
-- and the time of an hour and minute on the day of another time and on the day after.
pub record Calendar : Type 0 where
  pub year : Option String → ℕ → ℕ
  pub date : Option String → ℕ → ℕ → ℕ → ℕ → ℕ → Option ℕ
  pub same_day : Option String → ℕ → ℕ → ℕ → ℕ
  pub next_day : Option String → ℕ → ℕ → ℕ → ℕ

-- `_MONTHS`
abbrev pub months : List (String × ℕ)
months =
    ("jan", 1)
    ∷ ("january", 1)
    ∷ ("feb", 2)
    ∷ ("february", 2)
    ∷ ("mar", 3)
    ∷ ("march", 3)
    ∷ ("apr", 4)
    ∷ ("april", 4)
    ∷ ("may", 5)
    ∷ ("jun", 6)
    ∷ ("june", 6)
    ∷ ("jul", 7)
    ∷ ("july", 7)
    ∷ ("aug", 8)
    ∷ ("august", 8)
    ∷ ("sep", 9)
    ∷ ("sept", 9)
    ∷ ("september", 9)
    ∷ ("oct", 10)
    ∷ ("october", 10)
    ∷ ("nov", 11)
    ∷ ("november", 11)
    ∷ ("dec", 12)
    ∷ ("december", 12)
    ∷ []

abbrev pub afternoon : Half → ℕ
afternoon am = 0
afternoon pm = 12

-- The hour of the day; a bare number is too ambiguous.
unfoldable pub hour_of : Option Half → Option ℕ → ℕ → Option ℕ
hour_of none none h = none
hour_of none (some m) h = some h
hour_of (some half) minute h =
    if not (leb 1 h && leb h 12) then none else some (h % 12 + afternoon half)

abbrev pub minute_of : Option ℕ → ℕ
minute_of none = 0
minute_of (some m) = m

-- The loop over this year and the next.
unfoldable pub first_date : Calendar → Option String → ℕ → ℕ → ℕ → ℕ → ℕ → List ℕ → Option ℕ
first_date cal tz now month day h m [] = none
first_date cal tz now month day h m (y ∷ ys) = elim (cal.date tz y month day h m) [
  | none ↦ none
  | some t ↦ if ltb now (t + 3600) then some t else first_date cal tz now month day h m ys
]

abbrev clock_date : Calendar → Option String → ℕ → ℕ → ℕ → ℕ → Option ℕ → Option ℕ
clock_date cal tz now day h m none = none
clock_date cal tz now day h m (some month) =
    let y = cal.year tz now in first_date cal tz now month day h m (y ∷ (y + 1) ∷ [])

unfoldable pub clock_at : Calendar → ClockGroups → ℕ → Option (String × ℕ) → ℕ → ℕ → Option ℕ
clock_at cal c now (some (month, day)) h m = clock_date cal c.zone now day h m (lookup month months)
clock_at cal c now none h m =
    let t = cal.same_day c.zone now h m in
    if leb (t + 3600) now then some (cal.next_day c.zone now h m) else some t

-- `_parse_clock_reset`
unfoldable pub parse_clock_reset : Calendar → ClockGroups → ℕ → Option ℕ
unfolding hour_of clock_at
parse_clock_reset cal c now = elim (hour_of c.half c.minute c.hour) [
  | none ↦ none
  | some h ↦
      if ltb 23 h || ltb 59 (minute_of c.minute)
      then none
      else clock_at cal c now c.month_day h (minute_of c.minute)
]

-- `_UNIT_SECONDS`
abbrev pub unit_seconds : TimeUnit → ℕ
unit_seconds days = 86_400
unit_seconds hours = 3_600
unit_seconds minutes = 60
unit_seconds seconds = 1

unfoldable pub total : List (ℕ × TimeUnit) → ℕ
total [] = 0
total ((n, u) ∷ parts) = n * unit_seconds u + total parts

-- The value of `reset` before it is checked.
unfoldable pub raw_reset : Calendar → Found → ℕ → Option ℕ
unfolding total parse_clock_reset
raw_reset cal f now = elim f.epoch [
  | some t ↦ some t
  | none ↦ elim f.in_seconds [
    | some s ↦ some (now + s)
    | none ↦ elim f.duration [
      | some parts ↦ if ltb 0 (total parts) then some (now + total parts) else none
      | none ↦ elim f.clock [ some c ↦ parse_clock_reset cal c now | none ↦ none ]
    ]
  ]
]

abbrev pub max_horizon : ℕ
max_horizon = 691_200

abbrev pub usable : ℕ → Option ℕ → Option ℕ
usable now none = none
usable now (some r) = if leb (r + 3600) now || ltb (now + max_horizon) r then none else some r

-- `parse_reset_at`
unfoldable pub parse_reset_at : Calendar → Found → ℕ → Option ℕ
parse_reset_at cal f now = usable now (raw_reset cal f now)
