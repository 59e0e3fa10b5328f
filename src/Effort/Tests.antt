-- ===== src/Effort/Tests.antt =====
-- src/obs_agent/effort.py: the theorems at concrete models and bodies.
use recursive_harness_builde.Prelude.{
  ◌≡◌, refl, some, true, false, [], ◌∷◌, lookup, insert, remove, string_eq, arith,
}
use recursive_harness_builde.Effort.Levels.{medium, max}
use recursive_harness_builde.Effort.Body.{
  object, plain, text, level, opaque, Body, Model, Environ, parsed, parse_extra_body,
  build_effort_env,
}
use recursive_harness_builde.Effort.Kept.{body_of, qwen_levels_agree}

abbrev qwen : Model
qwen = record {
  is_local = true;
  is_qwen = true;
  is_sparks = true;
  takes_body_effort = false;
  is_claude = false;
}

abbrev gpt : Model
gpt = record {
  is_local = false;
  is_qwen = false;
  is_sparks = false;
  takes_body_effort = false;
  is_claude = false;
}

abbrev own : Body
own =
    ("top_k", plain (opaque 5))
    ∷ ("thinking", object (("type", text "disabled") ∷ []))
    ∷ ("output_config", object [])
    ∷ []

abbrev shell : Environ
shell = record { extra = parsed own; no_thinking_tokens = false; no_adaptive = false }

abbrev plain_body : Body
plain_body = ("top_k", plain (opaque 5)) ∷ []

abbrev plain_shell : Environ
plain_shell = record { extra = parsed plain_body; no_thinking_tokens = false; no_adaptive = false }

abbrev sent : Body
sent =
    ("top_k", plain (opaque 5))
    ∷ ("thinking", object (("type", text "adaptive") ∷ []))
    ∷ ("output_config", object (("effort", level max) ∷ []))
    ∷ []

sends : build_effort_env max gpt plain_shell ≡ some (max, some sent)
unfolding build_effort_env parse_extra_body lookup insert remove
sends = refl

qwen_levels_agree_example :
    body_of (build_effort_env medium qwen shell) ≡ body_of (build_effort_env max qwen shell)
qwen_levels_agree_example =
    qwen_levels_agree qwen shell medium max refl (λ h. ground (arith, h)) (λ h. ground (arith, h))
      (λ h. ground (arith, h)) (λ h. ground (arith, h))

-- A local model that is neither Qwen nor reached through the proxy.
abbrev other : Model
other = record gpt { is_local = true }

abbrev kept : Body
kept =
    ("top_k", plain (opaque 5))
    ∷ ("thinking", object (("type", text "disabled") ∷ []))
    ∷ ("output_config", object (("effort", level max) ∷ []))
    ∷ []

keeps : build_effort_env max other shell ≡ some (max, some kept)
unfolding build_effort_env parse_extra_body lookup insert remove
keeps = refl
