-- ===== src/Effort/Body.antt =====
-- src/obs_agent/effort.py: `build_effort_env`. Of the model's name, its prefixes are told by a test, and
-- `is_claude` is what `is_claude_model` says of it.
use recursive_harness_builde.Prelude.{
  ℕ, String, Option, none, some, Bool, true, false, ◌&&◌, ◌||◌, not, ◌==◌, string_eq, List, [],
  lookup, insert, remove, is_some, if◌then◌else◌,
}
use recursive_harness_builde.Effort.Levels.{Level, low, medium, high, auto}

-- A JSON value inside an object of the body; `opaque` stands for any other one.
pub data Leaf : Type 0 where
  text : String → Leaf
  flag : Bool → Leaf
  level : Level → Leaf
  opaque : ℕ → Leaf

-- A JSON value of the body.
pub data Json : Type 0 where
  object : List (String × Leaf) → Json
  plain : Leaf → Json

abbrev pub Body : Type 0
Body = List (String × Json)

-- What `_resolve` and the prefixes say of a model, after `resolve_model_context(model).model.lower()`.
pub record Model : Type 0 where
  pub is_local : Bool  -- `startswith("local-")`
  pub is_qwen : Bool  -- `startswith(("local-qwen", "local-sparks-qwen"))`
  pub is_sparks : Bool  -- `startswith("local-sparks-qwen")`
  pub takes_body_effort : Bool  -- `startswith(CLAUDE_BODY_EFFORT_PREFIXES)`
  pub is_claude : Bool

-- The variable `CLAUDE_CODE_EXTRA_BODY`: not set or empty, no JSON or no object, or an object.
pub data Extra : Type 0 where
  unset invalid : Extra
  parsed : Body → Extra

-- `parse_extra_body`; `none` where it raises.
unfoldable pub parse_extra_body : Extra → Option Body
parse_extra_body unset = some []
parse_extra_body invalid = none
parse_extra_body (parsed body) = some body

pub record Environ : Type 0 where
  pub extra : Extra
  pub no_thinking_tokens : Bool  -- `MAX_THINKING_TOKENS` is 0
  pub no_adaptive : Bool  -- `CLAUDE_CODE_DISABLE_ADAPTIVE_THINKING` is 1 or true

-- The level for the environment, and the new body, if there is one.
abbrev pub Result : Type 0
Result = Option (Level × Option Body)

-- `body.get(key, {})`, `none` where that is no object.
abbrev pub object_at : String → Body → Option (List (String × Leaf))
object_at key body = elim (lookup key body) [
  | none ↦ some []
  | some (object fields) ↦ some fields
  | some (plain leaf) ↦ none
]

abbrev pub qwen_mapping : Level → Level
qwen_mapping low = low
qwen_mapping _ = medium

abbrev pub with_effort : Level → List (String × Leaf) → Body → Body
with_effort l fields body = insert "output_config" (object (insert "effort" (level l) fields)) body

abbrev pub with_thinking : Bool → List (String × Leaf) → Body → Body
with_thinking on fields body =
    insert "chat_template_kwargs" (object (insert "enable_thinking" (flag on) fields)) body

abbrev pub qwen_kwargs : Level → Model → List (String × Leaf) → Body → Body
qwen_kwargs low m fields body = with_thinking false fields body
qwen_kwargs _ m fields body = if m.is_sparks then with_thinking true fields body else body

abbrev pub qwen_env : Level → Model → Body → Result
qwen_env l m body = elim (object_at "output_config" body) [
  | none ↦ none
  | some config ↦ elim (object_at "chat_template_kwargs" body) [
    | none ↦ none
    | some kwargs ↦
        some (l, some (qwen_kwargs l m kwargs (with_effort (qwen_mapping l) config body)))
  ]
]

abbrev pub config_env : Level → Body → Result
config_env l body = elim (object_at "output_config" body) [
  | none ↦ none
  | some config ↦ some (l, some (with_effort l config body))
]

abbrev pub is_high : Level → Bool
is_high high = true
is_high _ = false

abbrev pub claude_env : Level → Body → Result
claude_env l body =
    if is_high l && not (is_some (lookup "output_config" body))
    then some (l, none)
    else config_env l body

abbrev pub is_disabled_type : Option Leaf → Bool
is_disabled_type (some (text t)) = t == "disabled"
is_disabled_type _ = false

abbrev pub is_disabled : Environ → List (String × Leaf) → Body → Bool
is_disabled e thinking body =
    is_disabled_type (lookup "type" thinking)
    || is_some (lookup "temperature" body)
    || e.no_thinking_tokens
    || e.no_adaptive

abbrev pub is_proxied : Model → Bool
is_proxied m = not m.is_claude && not m.is_local

abbrev pub adaptive : List (String × Leaf) → Body → Body
adaptive thinking body =
    insert "thinking" (object (insert "type" (text "adaptive") (remove "budget_tokens" thinking)))
      body

abbrev pub other_env : Level → Model → Environ → Body → Result
other_env l m e body = elim (object_at "thinking" body) [
  | none ↦ none
  | some thinking ↦
      if is_proxied m && not (is_disabled e thinking body)
      then config_env l (adaptive thinking body)
      else if not (is_proxied m) && is_some (lookup "output_config" body)
      then config_env l body
      else some (l, none)
]

abbrev pub body_env : Level → Model → Environ → Body → Result
body_env auto m e body = some (auto, none)
body_env l m e body =
    if m.is_qwen
    then qwen_env l m body
    else if m.takes_body_effort
    then claude_env l body
    else other_env l m e body

-- `build_effort_env` for a level that is valid.
unfoldable pub build_effort_env : Level → Model → Environ → Result
build_effort_env l m e = elim (parse_extra_body e.extra) [
  | none ↦ none
  | some body ↦ body_env l m e body
]
