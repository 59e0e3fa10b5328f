-- ===== src/Readiness/Families.antt =====
-- src/obs_agent/cache_readiness.py: the families of models and their lifetimes. `tidy` is `str.strip` and
-- then `str.lower`.
use recursive_harness_builde.Prelude.{
  ℕ, String, Option, none, some, Bool, ◌||◌, List, [], ◌∷◌, any, codes, starts_with, includes,
  insert, nat_eq, string_eq, is_empty, if◌then◌else◌,
}

-- `DEFAULT_TTLS`, in seconds; `none` is off.
abbrev pub default_ttls : List (String × Option ℕ)
default_ttls = ("claude", some 3480) ∷ ("gpt", some 1800) ∷ ("local", none) ∷ []

-- The value of a part of the setting: off, a number, or what is none.
pub data Setting : Type 0 where
  off : Setting
  seconds : ℕ → Setting
  unreadable : Setting

abbrev set_ttl : String → Setting → List (String × Option ℕ) → List (String × Option ℕ)
set_ttl family off ttls = insert family none ttls
set_ttl family (seconds n) ttls = insert family (some n) ttls
set_ttl family unreadable ttls = ttls

-- `load_ttls`, from the parts that have a `=`, split and tidied.
unfoldable pub load_ttls :
    List (String × Setting) → List (String × Option ℕ) → List (String × Option ℕ)
load_ttls [] ttls = ttls
load_ttls ((family, setting) ∷ parts) ttls =
    load_ttls parts (if is_empty (codes family) then ttls else set_ttl family setting ttls)

abbrev tagged : List String → List ℕ → Bool
tagged tags name = any (λ tag. includes (codes tag) name) tags

abbrev begins : List String → List ℕ → Bool
begins tags name = any (λ tag. starts_with (codes tag) name) tags

abbrev is_local : List ℕ → Bool
is_local name =
    begins ("local-" ∷ []) name || tagged ("glm" ∷ "qwen" ∷ "llama" ∷ "gemma" ∷ "mistral" ∷ []) name

abbrev is_claude : List ℕ → Bool
is_claude name = tagged ("claude" ∷ "opus" ∷ "sonnet" ∷ "haiku" ∷ "fable" ∷ []) name

abbrev is_gpt : List ℕ → Bool
is_gpt name =
    begins ("gpt" ∷ "o1" ∷ "o3" ∷ "o4" ∷ "codex" ∷ []) name || tagged ("gpt" ∷ "codex" ∷ []) name

abbrev family_of : List ℕ → Option String
family_of name =
    if is_empty name
    then none
    else if is_local name
    then some "local"
    else if is_claude name
    then some "claude"
    else if is_gpt name
    then some "gpt"
    else none

abbrev pub or_blank : Option String → String
or_blank none = ""
or_blank (some model) = model

-- `model_family`
unfoldable pub model_family : (String → String) → Option String → Option String
model_family tidy model = family_of (codes (tidy (or_blank model)))
