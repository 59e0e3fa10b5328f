-- ===== src/Readiness/Calls.antt =====
-- src/obs_agent/cache_readiness.py: the last call of a model in a transcript, and `assess`. Times are
-- whole seconds.
use recursive_harness_builde.Prelude.{
  ℕ, ◌+◌, ◌-◌, String, Option, none, some, Bool, true, false, List, [], ◌∷◌, ltb, lookup, string_eq,
  or_else, ◌==◌, nat_eq, if◌then◌else◌,
}
use recursive_harness_builde.Readiness.Families.{model_family}

-- A line of the tail: a record of the assistant with what could be read of it, or any other line.
pub data Line : Type 0 where
  assistant : (stamp : Option ℕ) (model : Option String) (input read created : ℕ) → Line
  other : Line

-- The tail of a transcript that could be opened, in the order of its lines, or only the time of its last
-- write, or neither.
pub data Transcript : Type 0 where
  absent : Transcript
  unopened : ℕ → Transcript
  opened : ℕ → List Line → Transcript

pub record LastCall : Type 0 where
  pub timestamp : Option ℕ
  pub model : Option String
  pub tokens : Option ℕ

abbrev some_tokens : ℕ → Option ℕ
some_tokens n = if n == 0 then none else some n

abbrev call_of : ℕ → Line → Option LastCall
call_of mtime other = none
call_of mtime (assistant stamp model input read created) = some (record {
  timestamp = or_else stamp (some mtime);
  model = model;
  tokens = some_tokens (input + read + created);
})

-- The loop over the reversed lines.
unfoldable pub last_call : ℕ → List Line → Option LastCall
last_call mtime [] = none
last_call mtime (line ∷ lines) = or_else (last_call mtime lines) (call_of mtime line)

abbrev written_at : Option ℕ → LastCall
written_at t = record { timestamp = t; model = none; tokens = none }

abbrev or_written : ℕ → Option LastCall → LastCall
or_written mtime none = written_at (some mtime)
or_written mtime (some call) = call

-- `last_model_call`
unfoldable pub last_model_call : Transcript → LastCall
last_model_call absent = written_at none
last_model_call (unopened mtime) = written_at (some mtime)
last_model_call (opened mtime lines) = or_written mtime (last_call mtime lines)

pub data Reason : Type 0 where
  running no_activity unknown_family guard_off past within : Reason

pub record Readiness : Type 0 where
  pub cold : Bool
  pub family : Option String
  pub ttl : Option ℕ
  pub idle : Option ℕ
  pub tokens : Option ℕ
  pub reason : Reason

abbrev pub ttl_of : Option String → List (String × Option ℕ) → Option ℕ
ttl_of none ttls = none
ttl_of (some family) ttls = elim (lookup family ttls) [ none ↦ none | some ttl ↦ ttl ]

abbrev warm : Option String → Option ℕ → Option ℕ → Option ℕ → Reason → Readiness
warm family ttl idle tokens reason = record {
  cold = false;
  family = family;
  ttl = ttl;
  idle = idle;
  tokens = tokens;
  reason = reason;
}

abbrev judged : String → ℕ → ℕ → Option ℕ → Readiness
judged family ttl idle tokens = record {
  cold = ltb ttl idle;
  family = some family;
  ttl = some ttl;
  idle = some idle;
  tokens = tokens;
  reason = if ltb ttl idle then past else within;
}

abbrev pub judge : Option String → Option ℕ → ℕ → Option ℕ → Readiness
judge none ttl idle tokens = warm none none (some idle) tokens unknown_family
judge (some family) none idle tokens = warm (some family) none (some idle) tokens guard_off
judge (some family) (some ttl) idle tokens = judged family ttl idle tokens

abbrev pub since : ℕ → Option String → Option ℕ → LastCall → Readiness
since now family ttl call = elim call.timestamp [
  | none ↦ warm family ttl none call.tokens no_activity
  | some t ↦ judge family ttl (now - t) call.tokens
]

-- `assess`
unfoldable pub assess :
    (String → String) → Transcript → Option String → Bool → ℕ → List (String × Option ℕ) → Readiness
assess tidy transcript hint true now ttls = warm none none (some 0) none running
assess tidy transcript hint false now ttls =
    let call = last_model_call transcript in
    let family = or_else (model_family tidy call.model) (model_family tidy hint) in
    since now family (ttl_of family ttls) call
