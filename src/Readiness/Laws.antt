-- ===== src/Readiness/Laws.antt =====
-- src/obs_agent/cache_readiness.py and src/obs_agent/fork_model.py: when a session is cold, and what a
-- fork keeps.
use recursive_harness_builde.Prelude.{
  ℕ, ◌-◌, ◌<◌, ◌≡◌, refl, String, Option, none, some, Bool, true, false, List, lookup, string_eq,
  or_else, arith, ==_iff, Option-cases, inl, inr,
}
use recursive_harness_builde.Readiness.Families.{model_family, or_blank}
use recursive_harness_builde.Readiness.Calls.{
  Transcript, assess, last_model_call, LastCall, since, ttl_of,
}
use recursive_harness_builde.Readiness.Forks.{choose}

known_ttl :
    (ttls : List (String × Option ℕ)) (family : String) (ttl : ℕ)
    → ttl_of (some family) ttls ≡ some ttl
    → lookup family ttls ≡ some (some ttl)
known_ttl ttls family ttl h = elim (Option-cases (lookup family ttls)) [
  | inl e ↦ ground (arith, h, e)
  | inr (o, e) ↦ ground (arith, h, e)
]

since_cold :
    (now : ℕ) (known : Option String) (ttls : List (String × Option ℕ)) (call : LastCall)
    → (since now known (ttl_of known ttls) call).cold ≡ true
    → (t ttl : ℕ) × (family : String) × (call.timestamp ≡ some t)
      × (known ≡ some family)
      × (lookup family ttls ≡ some (some ttl))
      × (ttl < now - t)
since_cold now none ttls call h = elim (Option-cases call.timestamp) [
  | inl e ↦ ground (arith, h, e)
  | inr (t, e) ↦ ground (arith, h, e)
]
since_cold now (some family) ttls call h = elim (Option-cases call.timestamp) [
  | inl e ↦ ground (arith, h, e)
  | inr (t, e) ↦ elim (Option-cases (ttl_of (some family) ttls)) [
    | inl f ↦ ground (arith, h, e, f)
    | inr (ttl, f) ↦ (t, ttl, family, e, refl, known_ttl ttls family ttl f, ground (arith, h, e, f))
  ]
]

-- A session is cold only if it does not run, a time of its last call or write is known, its family is known
-- from that call or else from the hint, the family has a lifetime, and more time has passed.
pub cold_session :
    (tidy : String → String) (transcript : Transcript) (hint : Option String) (running : Bool)
    (now : ℕ) (ttls : List (String × Option ℕ))
    → (assess tidy transcript hint running now ttls).cold ≡ true
    → (running ≡ false)
      × ((t ttl : ℕ) × (family : String) × ((last_model_call transcript).timestamp ≡ some t)
          × (or_else (model_family tidy (last_model_call transcript).model) (model_family tidy hint)
              ≡ some family)
          × (lookup family ttls ≡ some (some ttl))
          × (ttl < now - t))
unfolding assess
cold_session tidy transcript hint true now ttls h = ground (arith, h)
cold_session tidy transcript hint false now ttls h =
    let (t, ttl, family, e, f, l, c) =
      since_cold now
        (or_else (model_family tidy (last_model_call transcript).model) (model_family tidy hint))
        ttls (last_model_call transcript) h in
    (refl, (t, ttl, family, e, f, l, c))

-- A fork that is not refused runs on the source's model, or on one that is not known to be of another
-- family than the source's.
pub fork_keeps_family :
    (strip lower : String → String) (requested : Option String) (source model : String) (own : Bool)
    → choose strip lower requested source ≡ some (model, own)
    → (own ≡ true → model ≡ source)
      × ((f g : String)
          → model_family (λ s. lower (strip s)) (some source) ≡ some f
          → model_family (λ s. lower (strip s)) (some model) ≡ some g
          → f ≡ g)
unfolding choose
fork_keeps_family strip lower requested source model own h = (
  ground (arith, h, ==_iff (strip (or_blank requested)) source),
  λ f g a b. ground (arith, h, a, b, ==_iff f g),
)
