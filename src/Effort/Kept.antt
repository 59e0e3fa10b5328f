-- ===== src/Effort/Kept.antt =====
-- src/obs_agent/effort.py: what the extra body keeps, and what a change of the level changes in it.
use recursive_harness_builde.Prelude.{
  ◌≡◌, ◌≢◌, refl, subst, ◌∙◌, inl, inr, String, Option, none, some, Bool, true, false, ◌&&◌, not,
  ◌==◌, string_eq, List, lookup, insert, lookup-insert, ==_iff, arith, Option-cases, Bool-cases,
  is_some, if◌then◌else◌,
}
use recursive_harness_builde.Effort.Levels.{Level, low, medium, high, xhigh, max, auto}
use recursive_harness_builde.Effort.Body.{
  Leaf, Body, Model, Environ, Result, parse_extra_body, build_effort_env, object_at, is_disabled,
  is_proxied, config_env, claude_env, qwen_env, qwen_kwargs, other_env, body_env, adaptive, is_high,
  with_thinking,
}

abbrev pub body_of : Result → Option (Option Body)
body_of none = none
body_of (some (l, body)) = some body

-- For a local Qwen model any two levels but `low` and `auto` give the same extra body, or both an error,
-- whatever the environment.
pub qwen_levels_agree :
    (m : Model) (e : Environ) (a b : Level)
    → m.is_qwen ≡ true
    → a ≢ low
    → a ≢ auto
    → b ≢ low
    → b ≢ auto
    → body_of (build_effort_env a m e) ≡ body_of (build_effort_env b m e)
unfolding build_effort_env
qwen_levels_agree m e a b q al aa bl ba = ground (arith, q, al, aa, bl, ba)

module _ (key : String) where
  insert_frame :
      {V : Type 0} (j : String) (v : V) (d : List (String × V))
      → (key == j) ≡ false
      → lookup key (insert j v d) ≡ lookup key d
  insert_frame j v d n = ground (arith, lookup-insert j key v d, n, ==_iff key j, ==_iff j key)

  -- The body that a result has, if any, agrees with `old` at the key.
  abbrev IsKept : Body → Result → Type 0
  IsKept old none = Unit
  IsKept old (some (l, none)) = Unit
  IsKept old (some (l, some new)) = lookup key new ≡ lookup key old

  rebase : (a b : Body) (r : Result) → lookup key a ≡ lookup key b → IsKept a r → IsKept b r
  rebase a b none e h = tt
  rebase a b (some (l, none)) e h = tt
  rebase a b (some (l, some new)) e h = h ∙ e

  branch-IsKept :
      (old : Body) (a b : Bool) (r s t : Result)
      → IsKept old r
      → IsKept old s
      → IsKept old t
      → IsKept old (if a then r else if b then s else t)
  branch-IsKept old true b r s t h k l = h
  branch-IsKept old false true r s t h k l = k
  branch-IsKept old false false r s t h k l = l

  module _ (x : (key == "output_config") ≡ false) where
    config_env-IsKept : (l : Level) (body : Body) → IsKept body (config_env l body)
    config_env-IsKept l body = elim (Option-cases (object_at "output_config" body)) [
      | inl e ↦ rw (config_env, e) tt
      | inr (config, e) ↦ rw (config_env, e) (insert_frame "output_config" _ body x)
    ]

    claude_env-IsKept : (l : Level) (body : Body) → IsKept body (claude_env l body)
    claude_env-IsKept l body =
        elim (Bool-cases (is_high l && not (is_some (lookup "output_config" body)))) [
          | inl c ↦ rw (claude_env, c) tt
          | inr c ↦ rw (claude_env, c) (config_env-IsKept l body)
        ]

    module _ (y : (key == "chat_template_kwargs") ≡ false) where
      sparks_frame :
          (m : Model) (fields : List (String × Leaf)) (body : Body)
          → lookup key (if m.is_sparks then with_thinking true fields body else body)
            ≡ lookup key body
      sparks_frame m fields body = elim (Bool-cases m.is_sparks) [
        | inl s ↦ rw s (insert_frame "chat_template_kwargs" _ body y)
        | inr s ↦ rw s refl
      ]

      qwen_kwargs_frame :
          (l : Level) (m : Model) (fields : List (String × Leaf)) (body : Body)
          → lookup key (qwen_kwargs l m fields body) ≡ lookup key body
      qwen_kwargs_frame low m fields body = insert_frame "chat_template_kwargs" _ body y
      qwen_kwargs_frame medium m fields body = sparks_frame m fields body
      qwen_kwargs_frame high m fields body = sparks_frame m fields body
      qwen_kwargs_frame xhigh m fields body = sparks_frame m fields body
      qwen_kwargs_frame max m fields body = sparks_frame m fields body
      qwen_kwargs_frame auto m fields body = sparks_frame m fields body

      qwen_env-IsKept : (l : Level) (m : Model) (body : Body) → IsKept body (qwen_env l m body)
      qwen_env-IsKept l m body = elim (Option-cases (object_at "output_config" body)) [
        | inl e ↦ rw (qwen_env, e) tt
        | inr (config, e) ↦
            rw (qwen_env, e)
              (elim (Option-cases (object_at "chat_template_kwargs" body)) [
                | inl f ↦ rw f tt
                | inr (kwargs, f) ↦
                    rw f (qwen_kwargs_frame l m kwargs _ ∙ insert_frame "output_config" _ body x)
              ])
      ]

    module _ (z : (key == "thinking") ≡ false) where
      other_env-IsKept :
          (l : Level) (m : Model) (e : Environ) (body : Body) → IsKept body (other_env l m e body)
      other_env-IsKept l m e body = elim (Option-cases (object_at "thinking" body)) [
        | inl f ↦ rw (other_env, f) tt
        | inr (thinking, f) ↦
            elim (Bool-cases (is_proxied m && not (is_disabled e thinking body))) [
              | inl c ↦
                  rw (other_env, f, c)
                    (rebase (adaptive thinking body) body (config_env l (adaptive thinking body))
                      (insert_frame "thinking" _ body z)
                      (config_env-IsKept l (adaptive thinking body)))
              | inr c ↦
                  elim (Bool-cases (not (is_proxied m) && is_some (lookup "output_config" body))) [
                    | inl d ↦ rw (other_env, f, c, d) (config_env-IsKept l body)
                    | inr d ↦ rw (other_env, f, c, d) tt
                  ]
            ]
      ]

      chosen_env-IsKept :
          (y : (key == "chat_template_kwargs") ≡ false) (l : Level) (m : Model) (e : Environ)
          (body : Body)
          → IsKept body (
              if m.is_qwen
              then qwen_env l m body
              else if m.takes_body_effort
              then claude_env l body
              else other_env l m e body)
      chosen_env-IsKept y l m e body =
          branch-IsKept body m.is_qwen m.takes_body_effort _ _ _ (qwen_env-IsKept y l m body)
            (claude_env-IsKept l body) (other_env-IsKept l m e body)

      body_env-IsKept :
          (y : (key == "chat_template_kwargs") ≡ false) (l : Level) (m : Model) (e : Environ)
          (body : Body)
          → IsKept body (body_env l m e body)
      body_env-IsKept y auto m e body = tt
      body_env-IsKept y low m e body = chosen_env-IsKept y low m e body
      body_env-IsKept y medium m e body = chosen_env-IsKept y medium m e body
      body_env-IsKept y high m e body = chosen_env-IsKept y high m e body
      body_env-IsKept y xhigh m e body = chosen_env-IsKept y xhigh m e body
      body_env-IsKept y max m e body = chosen_env-IsKept y max m e body

-- Where there is a new body, it has at every key but `output_config`, `chat_template_kwargs` and `thinking`
-- what the operator's body has there.
pub body_kept :
    (l k : Level) (m : Model) (e : Environ) (old new : Body) (key : String)
    → parse_extra_body e.extra ≡ some old
    → build_effort_env l m e ≡ some (k, some new)
    → (key == "output_config") ≡ false
    → (key == "chat_template_kwargs") ≡ false
    → (key == "thinking") ≡ false
    → lookup key new ≡ lookup key old
unfolding build_effort_env
body_kept l k m e old new key p b x y z =
    subst (IsKept key old) b (rw (build_effort_env, p) (body_env-IsKept key x z y l m e old))

disabled_env-IsKept :
    (l : Level) (m : Model) (e : Environ) (body : Body) (thinking : List (String × Leaf))
    → object_at "thinking" body ≡ some thinking
    → is_disabled e thinking body ≡ true
    → IsKept "thinking" body (other_env l m e body)
disabled_env-IsKept l m e body thinking f d =
    elim (Bool-cases (not (is_proxied m) && is_some (lookup "output_config" body))) [
      | inl c ↦ rw (other_env, f, off, c) (config_env-IsKept "thinking" refl l body)
      | inr c ↦ rw (other_env, f, off, c) tt
    ]
  where
    off : (is_proxied m && not (is_disabled e thinking body)) ≡ false
    off = ground (arith, d)

disabled_branch-IsKept :
    (l : Level) (m : Model) (e : Environ) (body : Body) (thinking : List (String × Leaf))
    → object_at "thinking" body ≡ some thinking
    → is_disabled e thinking body ≡ true
    → IsKept "thinking" body (
        if m.is_qwen
        then qwen_env l m body
        else if m.takes_body_effort
        then claude_env l body
        else other_env l m e body)
disabled_branch-IsKept l m e body thinking f d =
    branch-IsKept "thinking" body m.is_qwen m.takes_body_effort _ _ _
      (qwen_env-IsKept "thinking" refl refl l m body) (claude_env-IsKept "thinking" refl l body)
      (disabled_env-IsKept l m e body thinking f d)

disabled_body-IsKept :
    (l : Level) (m : Model) (e : Environ) (body : Body) (thinking : List (String × Leaf))
    → object_at "thinking" body ≡ some thinking
    → is_disabled e thinking body ≡ true
    → IsKept "thinking" body (body_env l m e body)
disabled_body-IsKept auto m e body thinking f d = tt
disabled_body-IsKept low m e body thinking f d = disabled_branch-IsKept low m e body thinking f d
disabled_body-IsKept medium m e body thinking f d =
    disabled_branch-IsKept medium m e body thinking f d
disabled_body-IsKept high m e body thinking f d = disabled_branch-IsKept high m e body thinking f d
disabled_body-IsKept xhigh m e body thinking f d =
    disabled_branch-IsKept xhigh m e body thinking f d
disabled_body-IsKept max m e body thinking f d = disabled_branch-IsKept max m e body thinking f d

-- Where there is a new body, thinking that the operator has disabled, by its type, by a temperature or by
-- the environment, stays as it is.
pub disabled_stays :
    (l k : Level) (m : Model) (e : Environ) (old new : Body) (thinking : List (String × Leaf))
    → parse_extra_body e.extra ≡ some old
    → build_effort_env l m e ≡ some (k, some new)
    → object_at "thinking" old ≡ some thinking
    → is_disabled e thinking old ≡ true
    → lookup "thinking" new ≡ lookup "thinking" old
unfolding build_effort_env
disabled_stays l k m e old new thinking p b f d =
    subst (IsKept "thinking" old) b
      (rw (build_effort_env, p) (disabled_body-IsKept l m e old thinking f d))
