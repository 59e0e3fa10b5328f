-- ===== src/CreditLimit/Tests.antt =====
-- Runs of src/obs_agent/credit_limit.py on concrete inputs.
use recursive_harness_builde.Prelude.{ℕ, ◌+◌, ◌*◌, ◌≤◌, ◌≡◌, refl, String, none, some, true, false}
use recursive_harness_builde.CreditLimit.Clock.{
  Calendar, ClockGroups, Half, hour_of, raw_reset, parse_reset_at,
}
use recursive_harness_builde.CreditLimit.Rearm.{
  CreditLimit, Texts, is_credit_limit_error, turn_limit_text, parse_credit_limit, rearm_at,
}
use recursive_harness_builde.CreditLimit.Bounds

-- A calendar in UTC of one day, which starts at 0.
abbrev utc : Calendar
utc = record {
  year = λ tz now. 1970;
  date = λ tz y mo d h m. none;
  same_day = λ tz now h m. h * 3600 + m * 60;
  next_day = λ tz now h m. 86_400 + h * 3600 + m * 60;
}

-- "resets 11am (UTC)"
abbrev eleven : ClockGroups
eleven = record {
  month_day = none;
  hour = 11;
  minute = none;
  half = some Half.am;
  zone = some "UTC";
}

abbrev texts : Texts
texts = record {
  is_limit = λ s. true;
  found = λ s. record { epoch = none; in_seconds = none; duration = none; clock = some eleven };
  strip = λ s. s;
}

abbrev line : String
line = "You've hit your limit"

abbrev morning : CreditLimit
morning = record { text = line; reset_at = some 39_600 }

read : parse_credit_limit texts utc (some line) 36_000 ≡ some morning
unfolding parse_credit_limit is_credit_limit_error parse_reset_at raw_reset
read = refl

rearm_bounds_example :
    (36_000 + 60 ≤ rearm_at morning 36_000 1)
    × (rearm_at morning 36_000 1 ≤ 36_000 + 691_260)
    × ((r : ℕ) → morning.reset_at ≡ some r → r + 60 ≤ rearm_at morning 36_000 1)
    × (morning.reset_at ≡ none → rearm_at morning 36_000 1 ≤ 36_000 + 3600)
rearm_bounds_example = Bounds.rearm_bounds texts utc (some line) 36_000 1 morning read

silent : turn_limit_text texts false none (some line) ≡ some line
unfolding turn_limit_text
silent = refl

at_three : hour_of (some Half.pm) none 3 ≡ some 15
unfolding hour_of
at_three = refl
