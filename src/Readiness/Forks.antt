-- ===== src/Readiness/Forks.antt =====
-- src/obs_agent/fork_model.py: `choose`. `strip` is `str.strip` and `lower` is `str.lower`.
use recursive_harness_builde.Prelude.{
  String, Option, none, some, Bool, true, false, not, ◌==◌, string_eq, contains, List, [], ◌∷◌,
  if◌then◌else◌,
}
use recursive_harness_builde.Readiness.Families.{model_family, or_blank}

-- `INHERIT_WORDS`
abbrev inherit_words : List String
inherit_words = "" ∷ "inherit" ∷ "source" ∷ []

abbrev pub conflicts : Option String → Option String → Bool
conflicts (some f) (some g) = not (f == g)
conflicts _ _ = false

-- `choose`: the model, and whether it is the source's own; `none` where it raises.
unfoldable pub choose :
    (strip lower : String → String) → Option String → String → Option (String × Bool)
choose strip lower requested source =
    let raw = strip (or_blank requested) in
    if contains inherit_words (lower raw)
    then some (source, true)
    else if conflicts (model_family (λ s. lower (strip s)) (some source))
        (model_family (λ s. lower (strip s)) (some raw))
    then none
    else some (raw, raw == source)
