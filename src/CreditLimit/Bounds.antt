-- ===== src/CreditLimit/Bounds.antt =====
-- src/obs_agent/credit_limit.py: when a run that hit a limit is tried again.
use recursive_harness_builde.Prelude.{
  ℕ, zero, suc, ◌+◌, ◌*◌, ◌%◌, ◌^◌, min, refl, ◌-◌, ◌≤◌, ◌<◌, ◌≡◌, String, Option, none, some, Bool,
  arith, Option-cases, Bool-cases, true, false, leb, inl, inr,
}
use native.Mathlib.Nat.{pow-suc}
use recursive_harness_builde.CreditLimit.Clock.{
  Calendar, Found, Half, hour_of, raw_reset, parse_reset_at,
}
use recursive_harness_builde.CreditLimit.Rearm.{
  CreditLimit, Texts, is_credit_limit_error, turn_limit_text, parse_credit_limit, backoff_seconds,
  rearm_at,
}

reset_within :
    (cal : Calendar) (f : Found) (now r : ℕ) → parse_reset_at cal f now ≡ some r → r ≤ now + 691_200
unfolding parse_reset_at
reset_within cal f now r h = elim (Option-cases (raw_reset cal f now)) [
  | inl e ↦ absurd (ground (arith, e, h))
  | inr (t, e) ↦ ground (arith, e, h)
]

reset_of :
    (x : Texts) (cal : Calendar) (text : Option String) (now r : ℕ) (limit : CreditLimit)
    → parse_credit_limit x cal text now ≡ some limit
    → limit.reset_at ≡ some r
    → r ≤ now + 691_200
unfolding parse_credit_limit
reset_of x cal none now r limit h e = cc
reset_of x cal (some s) now r limit h e = reset_within cal (x.found s) now r (ground (arith, h, e))

pow_pos : (n : ℕ) → 1 ≤ 2 ^ n
pow_pos zero = omega arith
pow_pos (suc n) = omega (arith, pow-suc 2 n, pow_pos n)

large_power : (n : ℕ) → 16 ≤ 2 ^ suc (suc (suc (suc n)))
large_power zero = omega arith
large_power (suc n) = omega (arith, pow-suc 2 (suc (suc (suc (suc n)))), large_power n)

-- The bound on the exponent never shows.
uncapped : (n : ℕ) → min (300 * 2 ^ min n 16) 3600 ≡ min (300 * 2 ^ n) 3600
uncapped zero = refl
uncapped (suc zero) = refl
uncapped (suc (suc zero)) = refl
uncapped (suc (suc (suc zero))) = refl
uncapped (suc (suc (suc (suc n)))) = elim (Bool-cases (leb n 12)) [
  | inl few ↦
      let e : min (suc (suc (suc (suc n)))) 16 ≡ suc (suc (suc (suc n))) = ground (arith, few) in
      rw e
  | inr many ↦
      let e : min (suc (suc (suc (suc n)))) 16 ≡ 16 = ground (arith, many) in
      rw e (omega (arith, large_power n))
]

backoff_suc : (n : ℕ) → backoff_seconds (suc n) ≡ min (300 * 2 ^ n) 3600
unfolding backoff_seconds
backoff_suc n = let e : suc n - 1 ≡ n = omega arith in rw e (uncapped n)

-- The wait without a reset time doubles from five minutes with each fire that hits the limit, and
-- stops at an hour; the bound on the exponent never shows.
backoff_doubles :
    (n : ℕ)
    → (backoff_seconds zero ≡ 300)
      × (backoff_seconds (suc n) ≡ min (300 * 2 ^ n) 3600)
      × (backoff_seconds (suc (suc n)) ≡ min (2 * backoff_seconds (suc n)) 3600)
unfolding backoff_seconds
backoff_doubles n =
    (refl, backoff_suc n, omega (arith, backoff_suc (suc n), backoff_suc n, pow-suc 2 n))

backoff_from_300 : (fires : ℕ) → 300 ≤ min (300 * 2 ^ min (fires - 1) 16) 3600
backoff_from_300 fires = omega (arith, pow_pos (min (fires - 1) 16))

-- A failure that is recognised is tried again at least a minute and at most eight days and a minute
-- later, at least a minute after the reset time, if one was found, and within an hour otherwise.
pub rearm_bounds :
    (x : Texts) (cal : Calendar) (text : Option String) (now fires : ℕ) (limit : CreditLimit)
    → parse_credit_limit x cal text now ≡ some limit
    → (now + 60 ≤ rearm_at limit now fires)
      × (rearm_at limit now fires ≤ now + 691_260)
      × ((r : ℕ) → limit.reset_at ≡ some r → r + 60 ≤ rearm_at limit now fires)
      × (limit.reset_at ≡ none → rearm_at limit now fires ≤ now + 3600)
unfolding rearm_at backoff_seconds
rearm_bounds x cal text now fires limit h = elim (Option-cases limit.reset_at) [
  | inl e ↦ ground (arith, backoff_from_300 fires)
  | inr (r, e) ↦ ground (arith, reset_of x cal text now r limit h e)
]

turn_limited :
    (x : Texts) (failed : Bool) (error reply : Option String) (text : String)
    → turn_limit_text x failed error reply ≡ some text
    → is_credit_limit_error x (some text) ≡ true
unfolding turn_limit_text
turn_limited x true none reply text h = ground arith
turn_limited x true (some e) reply text h = ground arith
turn_limited x false error reply text h = ground arith

-- A text that `turn_limit_text` returns is one that `parse_credit_limit` recognises, and it keeps it.
turn_limit_parses :
    (x : Texts) (cal : Calendar) (failed : Bool) (error reply : Option String) (text : String)
    (now : ℕ)
    → turn_limit_text x failed error reply ≡ some text
    → (limit : CreditLimit) × (parse_credit_limit x cal (some text) now ≡ some limit)
      × (limit.text ≡ text)
unfolding parse_credit_limit
turn_limit_parses x cal failed error reply text now h = (
  record { text = text; reset_at = parse_reset_at cal (x.found text) now },
  rw (turn_limited x failed error reply text h),
  refl,
)

-- With a half of the day the hour is below 24 and agrees with the one on the clock, and only the hours
-- one to twelve are read; without one an hour is read only where minutes are.
hour_agrees :
    (half : Half) (minute : Option ℕ) (h k : ℕ)
    → hour_of (some half) minute h ≡ some k
    → (k < 24) × (k % 12 ≡ h % 12) × (1 ≤ h) × (h ≤ 12) × (hour_of none none h ≡ none)
unfolding hour_of
hour_agrees half minute h k e = ground (arith, e)
