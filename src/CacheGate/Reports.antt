-- ===== src/CacheGate/Reports.antt =====
-- src/obs_agent/cache_gate.py: the identity of the code under test, and the reports of the live cache
-- regression. The explanations that accompany each verdict are not modelled.
use recursive_harness_builde.Prelude.{
  ℕ, String, Option, none, some, Bool, true, false, ◌&&◌, ◌||◌, not, List, [], ◌∷◌, leb, any,
  lookup, is_some, ◌==◌, string_eq, nat_eq, if◌then◌else◌,
}

-- The texts of a status that the gate tells apart.
pub data Status : Type 0 where
  pass provider_error skipped : Status
  other : String → Status

-- One bad pair of a failure; a ratio is in millionths, and `none` is no number.
pub record BadPair : Type 0 where
  pub cls : Option String
  pub ratio : Option ℕ

pub record Failure : Type 0 where
  pub status : Option Status
  pub bad_pairs : List BadPair

-- `code_identity`, and the part of a report that repeats it.
pub record Identity : Type 0 where
  pub head : Option String
  pub dirty : Option String
  pub cliproxy : Option String
  pub proxy_source : Option String

pub record Report : Type 0 where
  pub code : Identity
  pub scenarios : Option String
  pub providers : List String
  pub result : Status
  pub scenario_results : List (String × List (String × Status))
  pub scenario_failures : List (String × List (String × Failure))

abbrev pub text_eq : Option String → Option String → Bool
text_eq none none = true
text_eq none (some b) = false
text_eq (some a) none = false
text_eq (some a) (some b) = a == b

-- `_same_code`; an empty or missing `proxy_source_sha256` of the target is `none`.
unfoldable pub same_code : Report → Identity → Bool
same_code r target =
    if not (text_eq r.code.head target.head) || not (text_eq r.code.dirty target.dirty)
    then false
    else if is_some target.proxy_source && not (text_eq r.code.proxy_source target.proxy_source)
    then false
    else text_eq r.code.cliproxy target.cliproxy

-- One row of `KNOWN_INTERMITTENT_SHAPES`.
pub record Shape : Type 0 where
  pub provider : String
  pub scenario : Option String
  pub cls : String
  pub min_ratio : ℕ
  pub max_ratio : ℕ

abbrev pub known_intermittent_shapes : List Shape
known_intermittent_shapes =
    record { provider = "codex"; scenario = none; cls = "append"; min_ratio = 0; max_ratio = 0 }
    ∷ record {
      provider = "codex";
      scenario = none;
      cls = "append";
      min_ratio = 835_000;
      max_ratio = 835_000;
    }
    ∷ record {
      provider = "anthropic";
      scenario = some "recovery_multi";
      cls = "tail-block-append";
      min_ratio = 850_000;
      max_ratio = 950_000;
    }
    ∷ []

-- `RERUN_STATUSES_WITHOUT_SHAPE`
abbrev pub has_no_verdict : Status → Bool
has_no_verdict provider_error = true
has_no_verdict skipped = true
has_no_verdict _ = false

abbrev pub fits_scenario : Option String → String → Bool
fits_scenario none scenario = true
fits_scenario (some s) scenario = s == scenario

unfoldable pub fits : String → String → Option String → ℕ → Shape → Bool
fits provider scenario cls ratio shape =
    shape.provider == provider
    && fits_scenario shape.scenario scenario
    && text_eq cls (some shape.cls)
    && leb shape.min_ratio ratio
    && leb ratio shape.max_ratio

-- One round of the loop over the bad pairs.
unfoldable pub pair_fits : String → String → BadPair → Bool
unfolding fits any
pair_fits provider scenario pair = elim pair.ratio [
  | none ↦ false
  | some ratio ↦ any (fits provider scenario pair.cls ratio) known_intermittent_shapes
]

unfoldable pub all_fit : String → String → List BadPair → Bool
unfolding pair_fits
all_fit provider scenario [] = true
all_fit provider scenario (pair ∷ pairs) =
    pair_fits provider scenario pair && all_fit provider scenario pairs

abbrev pub without_verdict : Option Status → Bool
without_verdict none = false
without_verdict (some s) = has_no_verdict s

-- `known_intermittent`
unfoldable pub known_intermittent : String → String → Failure → Bool
unfolding all_fit
known_intermittent provider scenario f =
    if without_verdict f.status
    then true
    else elim f.bad_pairs [ [] ↦ false | pair ∷ pairs ↦ all_fit provider scenario (pair ∷ pairs) ]

-- `(report.get("scenario_results") or {}).get(provider, {}).get(scenario)`
abbrev pub inner {ℓ} : {A : Type ℓ} → Option (List (String × A)) → String → Option A
inner none scenario = none
inner (some d) scenario = lookup scenario d

abbrev pub status_of : Report → String → String → Option Status
status_of r provider scenario = inner (lookup provider r.scenario_results) scenario

abbrev pub or_status : Option Failure → Status → Failure
or_status none s = record { status = some s; bad_pairs = [] }
or_status (some f) s = f

-- The failure that a report records for a scenario, or one that has its status alone.
abbrev pub failure_of : Report → String → String → Status → Failure
failure_of r provider scenario s =
    or_status (inner (lookup provider r.scenario_failures) scenario) s
