-- ===== src/Health/Resolve.antt =====
-- src/obs_agent/jsonl_health.py: `resolve_safe_jsonl_target`. The analysis of a branch of its own is an argument,
-- which is missing where it fails.
use recursive_harness_builde.Prelude.{
  ℕ, Option, none, some, is_some, or_else, Bool, true, false, ◌&&◌, not, List, [], ◌∷◌, contains,
  lookup, leb, ltb, nat_eq, if◌then◌else◌,
}
use recursive_harness_builde.Replay.Overlays.{same_parent}
use recursive_harness_builde.Health.Entries.{TailReason}
use recursive_harness_builde.Health.Boundaries.{Targets}
use recursive_harness_builde.Health.Analysis.{Health, needs_recovery, is_uuid_safe}

pub data Reason : Type 0 where
  preferred_uuid_unsafe : Reason
  preferred_uuid_missing : Reason
  complete_message_boundary : Reason
  missing_with_tail : Option TailReason → Reason
  of_tail : Option TailReason → Reason

-- `SafeJsonlTarget`; whether it is that of a branch of its own.
pub record SafeTarget : Type 0 where
  pub target_uuid : Option ℕ
  pub changed : Bool
  pub reason : Option Reason
  pub is_branch : Bool

-- `has_uuid`
abbrev pub has_uuid : Health → ℕ → Bool
has_uuid h u = is_some (lookup u h.uuid_lines)

unfoldable pub line_of : Health → ℕ → ℕ
line_of h u = elim (lookup u h.uuid_lines) [ none ↦ 0 | some n ↦ n ]

-- `candidates`: the safe ones among the boundaries that `p` holds of.
unfoldable pub candidate_targets : Health → (ℕ → Bool) → Targets → List ℕ
candidate_targets h p [] = []
candidate_targets h p ((u, b) ∷ targets) =
    let rest = candidate_targets h p targets in
    if p b && is_uuid_safe h (some b) then b ∷ rest else rest

-- `max(candidates, key=uuid_line_numbers.get, default=None)`
unfoldable pub latest_line : Health → Option ℕ → List ℕ → Option ℕ
latest_line h best [] = best
latest_line h none (u ∷ us) = latest_line h (some u) us
latest_line h (some b) (u ∷ us) =
    latest_line h (some (if ltb (line_of h b) (line_of h u) then u else b)) us

-- The last safe boundary that is not after a row.
abbrev pub boundary_before : Health → ℕ → Option ℕ
boundary_before h u =
    latest_line h none (candidate_targets h (λ b. leb (line_of h b) (line_of h u)) h.targets)

abbrev pub recovery_uuid : Health → Option ℕ
recovery_uuid h = elim h.tail.recovery as (λ o. Option ℕ) [ none ↦ none | some e ↦ e.row.uuid ]

-- A row of a branch of its own, by the analysis of that branch.
unfoldable pub on_own_branch : Health → ℕ → SafeTarget
on_own_branch b u =
    let safe = is_uuid_safe b (some u) in
    let own =
      if safe then lookup u b.targets else (if needs_recovery b then recovery_uuid b else none) in
    let found = or_else own (boundary_before b u) in
    let moved = not (same_parent found (some u)) in
    record {
      target_uuid = found;
      changed = moved;
      reason =
          if safe
          then (if moved then some complete_message_boundary else none)
          else some preferred_uuid_unsafe;
      is_branch = true;
    }

-- A safe row of the analyzed chain.
unfoldable pub at_boundary : Health → ℕ → SafeTarget
at_boundary h u =
    let found = or_else (lookup u h.targets) (boundary_before h u) in
    let moved = not (same_parent found (some u)) in
    record {
      target_uuid = found;
      changed = moved;
      reason = if moved then some complete_message_boundary else none;
      is_branch = false;
    }

abbrev pub recovery_reason : Health → Option ℕ → Reason
recovery_reason h none = of_tail h.tail.reason
recovery_reason h (some u) =
    if has_uuid h u then preferred_uuid_unsafe else missing_with_tail h.tail.reason

unfoldable pub at_recovery : Health → Option ℕ → SafeTarget
at_recovery h preferred = record {
  target_uuid = recovery_uuid h;
  changed = not (same_parent preferred (recovery_uuid h));
  reason = some (recovery_reason h preferred);
  is_branch = false;
}

abbrev pub fallback_reason : Health → Option ℕ → Option Reason
fallback_reason h none = none
fallback_reason h (some u) =
    if contains h.unsafe_uuids u
    then some preferred_uuid_unsafe
    else (if has_uuid h u then none else some preferred_uuid_missing)

unfoldable pub at_fallback : Health → Option ℕ → SafeTarget
at_fallback h preferred =
    let found = latest_line h none (candidate_targets h (λ b. true) h.targets) in
    record {
      target_uuid = found;
      changed = not (same_parent preferred found);
      reason = fallback_reason h preferred;
      is_branch = false;
    }

abbrev pub on_chain : Health → Option ℕ → SafeTarget
on_chain h preferred =
    if is_uuid_safe h preferred
    then (elim preferred as (λ o. SafeTarget) [
      | none ↦ at_recovery h none
      | some u ↦ at_boundary h u
    ])
    else (if needs_recovery h then at_recovery h preferred else at_fallback h preferred)

-- `resolve_safe_jsonl_target`, with the health of the file and that of the branch of a row.
unfoldable pub resolve_target : Health → (ℕ → Option Health) → Option ℕ → SafeTarget
resolve_target h branch none = on_chain h none
resolve_target h branch (some u) =
    if has_uuid h u && not (contains h.chain_uuids u)
    then (elim (branch u) as (λ o. SafeTarget) [
      | none ↦ on_chain h (some u)
      | some b ↦ on_own_branch b u
    ])
    else on_chain h (some u)
