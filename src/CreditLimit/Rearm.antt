-- ===== src/CreditLimit/Rearm.antt =====
-- src/obs_agent/credit_limit.py: which turns hit a limit, and when they are tried again. The patterns,
-- the groups that they find and `str.strip` are arguments.
use recursive_harness_builde.Prelude.{
  ℕ, ◌+◌, ◌-◌, ◌*◌, ◌^◌, min, max, String, Option, none, some, Bool, false, ◌&&◌, not, leb, length,
  ◌==◌, string_eq, if◌then◌else◌, codes,
}
use recursive_harness_builde.CreditLimit.Clock.{Calendar, Found, parse_reset_at}

pub record CreditLimit : Type 0 where
  pub text : String
  pub reset_at : Option ℕ

-- `re` and `str.strip` on a text.
pub record Texts : Type 0 where
  pub is_limit : String → Bool  -- one of `_LIMIT_PATTERNS` is found
  pub found : String → Found
  pub strip : String → String

-- `is_credit_limit_error`
unfoldable pub is_credit_limit_error : Texts → Option String → Bool
is_credit_limit_error x none = false
is_credit_limit_error x (some s) = not (s == "") && x.is_limit s

abbrev pub or_empty : Option String → String
or_empty none = ""
or_empty (some s) = s

-- `turn_limit_text`
unfoldable pub turn_limit_text : Texts → Bool → Option String → Option String → Option String
unfolding is_credit_limit_error
turn_limit_text x failed error reply =
    if failed
    then if is_credit_limit_error x error then error else none
    else let r = x.strip (or_empty reply) in
      if not (r == "") && leb (length (codes r)) 400 && is_credit_limit_error x (some r)
      then some r
      else none

-- `parse_credit_limit`
unfoldable pub parse_credit_limit : Texts → Calendar → Option String → ℕ → Option CreditLimit
parse_credit_limit x cal none now = none
parse_credit_limit x cal (some s) now =
    if is_credit_limit_error x (some s)
    then some (record { text = s; reset_at = parse_reset_at cal (x.found s) now })
    else none

-- `backoff_seconds`; a number below one counts as one there too.
unfoldable pub backoff_seconds : ℕ → ℕ
backoff_seconds fires = min (300 * 2 ^ min (fires - 1) 16) 3600

-- `rearm_at`
unfoldable pub rearm_at : CreditLimit → ℕ → ℕ → ℕ
unfolding backoff_seconds
rearm_at limit now fires = elim limit.reset_at [
  | some r ↦ max r now + 60
  | none ↦ now + backoff_seconds fires
]
