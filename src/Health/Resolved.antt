-- ===== src/Health/Resolved.antt =====
-- src/obs_agent/jsonl_health.py: which boundary `resolve_safe_jsonl_target` takes for a safe row.
use recursive_harness_builde.Prelude.{
  ℕ, ◌≤◌, ◌≡◌, sym, refl, ap, subst, ◌∙◌, inl, inr, Option, none, some, or_else, Bool, true, false,
  ◌&&◌, ◌||◌, List, [], ◌∷◌, All, All-contains, contains, lookup, leb, ltb, Bool-cases, ==_refl,
  ◌==◌, nat_eq, arith,
}
use recursive_harness_builde.Health.Boundaries.{Targets}
use recursive_harness_builde.Health.Analysis.{Health, is_uuid_safe}
use recursive_harness_builde.Health.Resolve.{
  SafeTarget, line_of, candidate_targets, latest_line, boundary_before, at_boundary, resolve_target,
}

-- Some entry of the chain has the boundary `b`.
abbrev pub is_end_of_entry : Targets → ℕ → Bool
is_end_of_entry [] b = false
is_end_of_entry ((u, c) ∷ targets) b = c == b || is_end_of_entry targets b

module _ (h : Health) where
  latest_line-of :
      (P : ℕ → Type 0) (m : ℕ) (us : List ℕ) (b : ℕ)
      → P m
      → All P us
      → latest_line h (some m) us ≡ some b
      → P b × (line_of h m ≤ line_of h b) × All (λ c. line_of h c ≤ line_of h b) us
  unfolding latest_line
  latest_line-of P m [] b x y e =
      subst (λ b. P b × (line_of h m ≤ line_of h b) × Unit {0}) (cc e) (x, omega arith, tt)
  latest_line-of P m (u ∷ us) b x y e = elim (Bool-cases (ltb (line_of h m) (line_of h u))) [
    | inl q ↦
        let (a, k, t) = latest_line-of P u us b y.0 y.1 (rw (latest_line, q) at e) in
        (a, ground (arith, k, q), (k, t))
    | inr q ↦
        let (a, k, t) = latest_line-of P m us b x y.1 (rw (latest_line, q) at e) in
        (a, k, (ground (arith, k, q), t))
  ]

  latest_line-from :
      (P : ℕ → Type 0) (us : List ℕ) (b : ℕ)
      → All P us
      → latest_line h none us ≡ some b
      → P b × All (λ c. line_of h c ≤ line_of h b) us
  unfolding latest_line
  latest_line-from P [] b y e = absurd (cc e)
  latest_line-from P (u ∷ us) b y e =
      let (a, k, t) = latest_line-of P u us b y.0 y.1 e in (a, (k, t))

  candidate_targets-All :
      (p : ℕ → Bool) (P : ℕ → Type 0) (targets : Targets)
      → ((b : ℕ) → is_end_of_entry targets b ≡ true → P b)
      → All
          (λ b. (p b ≡ true) × (is_uuid_safe h (some b) ≡ true) × P b)
          (candidate_targets h p targets)
  unfolding candidate_targets
  candidate_targets-All p P [] f = tt
  candidate_targets-All p P ((u, b) ∷ targets) f =
      let rest = candidate_targets-All p P targets (λ c k. f c (ground (arith, k))) in
      elim (Bool-cases (p b && is_uuid_safe h (some b))) [
        | inl e ↦
            rw e ((ground (arith, e), ground (arith, e), f b (ground (arith, ==_refl b))), rest)
        | inr e ↦ rw e rest
      ]

  contains-candidate_targets :
      (p : ℕ → Bool) (targets : Targets) (w c : ℕ)
      → lookup w targets ≡ some c
      → (p c && is_uuid_safe h (some c)) ≡ true
      → contains (candidate_targets h p targets) c ≡ true
  unfolding candidate_targets contains lookup
  contains-candidate_targets p [] w c l k = ground (arith, l)
  contains-candidate_targets p ((u, b) ∷ targets) w c l k = elim (Bool-cases (u == w)) [
    | inl e ↦
        let same : b ≡ c = ground (arith, l, e) in
        rw (subst (λ x. (p x && is_uuid_safe h (some x)) ≡ true) (sym same) k)
          (rw (same, ==_refl c) refl)
    | inr e ↦
        let rest = contains-candidate_targets p targets w c (ground (arith, l, e)) k in
        elim (Bool-cases (p b && is_uuid_safe h (some b))) [
          | inl q ↦ rw (q, rest) (ground arith)
          | inr q ↦ rw q rest
        ]
  ]

  resolve_target-safe :
      (branch : ℕ → Option Health) (u : ℕ)
      → contains h.chain_uuids u ≡ true
      → is_uuid_safe h (some u) ≡ true
      → resolve_target h branch (some u) ≡ at_boundary h u
  unfolding resolve_target
  resolve_target-safe branch u i s = ground (arith, i, s)

  -- A safe row with no boundary of its own moves back to the nearest one: where the row `u` of the analyzed
  -- chain is safe, stands in no complete message, and resolves to `b`, then `b` is the boundary
  -- of some entry of the chain, safe and not after `u`, and no safe boundary `c` that is not after `u` is after `b`.
  pub resolve_target-nearest :
      (branch : ℕ → Option Health) (u b w c : ℕ)
      → contains h.chain_uuids u ≡ true
      → is_uuid_safe h (some u) ≡ true
      → lookup u h.targets ≡ none
      → (resolve_target h branch (some u)).target_uuid ≡ some b
      → lookup w h.targets ≡ some c
      → is_uuid_safe h (some c) ≡ true
      → line_of h c ≤ line_of h u
      → (is_end_of_entry h.targets b ≡ true)
        × (is_uuid_safe h (some b) ≡ true)
        × (line_of h b ≤ line_of h u)
        × (line_of h c ≤ line_of h b)
  unfolding resolve_target at_boundary
  resolve_target-nearest branch u b w c i s n e l k m =
      let p : ℕ → Bool = λ x. leb (line_of h x) (line_of h u) in
      let found : boundary_before h u ≡ some b =
        ap (λ o. or_else o (boundary_before h u)) (sym n)
        ∙ ap (λ (t : SafeTarget). t.target_uuid) (sym (resolve_target-safe branch u i s))
        ∙ e in
      let ((a, q, z), t) =
        latest_line-from
          (λ x.
            (p x ≡ true) × (is_uuid_safe h (some x) ≡ true) × (is_end_of_entry h.targets x ≡ true))
          (candidate_targets h p h.targets) b
          (candidate_targets-All p (λ x. is_end_of_entry h.targets x ≡ true) h.targets (λ b k. k))
          found in
      (
        z,
        q,
        ground (arith, a),
        All-contains (λ x. line_of h x ≤ line_of h b) (candidate_targets h p h.targets) c t
            (contains-candidate_targets p h.targets w c l (ground (arith, k, m))),
      )
