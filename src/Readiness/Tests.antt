-- ===== src/Readiness/Tests.antt =====
-- src/obs_agent/cache_readiness.py and src/obs_agent/fork_model.py: the theorems at concrete sessions.
use recursive_harness_builde.Prelude.{
  ℕ, ◌-◌, ◌<◌, ◌≡◌, refl, String, none, some, true, false, [], ◌∷◌, lookup, string_eq, or_else, any,
  includes, starts_with, contains, insert,
}
use recursive_harness_builde.Readiness.Families.{
  model_family, default_ttls, load_ttls, seconds, off, unreadable,
}
use recursive_harness_builde.Readiness.Calls.{
  Transcript, opened, assistant, other, assess, last_model_call, last_call,
}
use recursive_harness_builde.Readiness.Forks.{choose}
use recursive_harness_builde.Readiness.Laws.{cold_session, fork_keeps_family}

abbrev same : String → String
same s = s

abbrev session : Transcript
session = opened 900 (assistant (some 100) (some "claude-opus-5") 10 20 0 ∷ other ∷ [])

cold : (assess same session none false 4000 default_ttls).cold ≡ true
unfolding assess model_family any includes starts_with last_model_call last_call lookup
cold = refl

cold_session_example :
    (false ≡ false)
    × ((t ttl : ℕ) × (family : String) × ((last_model_call session).timestamp ≡ some t)
        × (or_else (model_family same (last_model_call session).model) (model_family same none)
            ≡ some family)
        × (lookup family default_ttls ≡ some (some ttl))
        × (ttl < 4000 - t))
cold_session_example = cold_session same session none false 4000 default_ttls cold

loaded :
    load_ttls (("gpt", seconds 60) ∷ ("claude", off) ∷ ("gpt", unreadable) ∷ []) default_ttls
    ≡ ("claude", none) ∷ ("gpt", some 60) ∷ ("local", none) ∷ []
unfolding load_ttls insert
loaded = refl

abbrev opus : String
opus = "claude-opus-5"

abbrev haiku : String
haiku = "haiku"

takes : choose same same (some haiku) opus ≡ some (haiku, false)
unfolding choose model_family any includes starts_with contains
takes = refl

fork_keeps_family_example :
    (false ≡ true → haiku ≡ opus)
    × ((f g : String)
        → model_family same (some opus) ≡ some f
        → model_family same (some haiku) ≡ some g
        → f ≡ g)
fork_keeps_family_example = fork_keeps_family same same (some haiku) opus haiku false takes

-- A model of no known family is taken beside any source.
takes_unknown : choose same same (some "zeta") "claude-opus-5" ≡ some ("zeta", false)
unfolding choose model_family any includes starts_with contains
takes_unknown = refl
