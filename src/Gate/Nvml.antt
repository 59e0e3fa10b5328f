-- ===== src/Gate/Nvml.antt =====
-- deploy/llm-inference/gate.py: which GPU processes the gate accepts (`require_expected_qwen_nvml`,
-- `require_no_qwen_nvml`, `require_clean_recovery_nvml`), over the rows that `query_compute_apps`
-- returns.
use recursive_harness_builde.Prelude.{
  ℕ, ◌≡◌, refl, Option, none, some, Bool, true, false, ◌&&◌, not, List, [], ◌∷◌, All, arith, ◌==◌,
  nat_eq, is_empty, ◌≢◌, ◌↔◌, if◌then◌else◌,
}

-- `is_llama` is `_is_llama_server_app` of the row.
pub record Application : Type 0 where
  pub pid : ℕ
  pub is_llama : Bool

pub data NvmlError : Type 0 where
  disagrees unexpected_llama vram_allocated unexpected_process : NvmlError

select : (Application → Bool) → List Application → List Application
select p [] = []
select p (a ∷ as') = if p a then a ∷ select p as' else select p as'

-- `require_expected_qwen_nvml`: the error that it raises.
unfoldable pub expected_qwen : ℕ → List Application → Option NvmlError
unfolding select
expected_qwen pid apps =
    if is_empty (select (λ a. a.pid == pid && a.is_llama) apps)
    then some disagrees
    else if not (is_empty (select (λ a. a.is_llama && not (a.pid == pid)) apps))
    then some unexpected_llama
    else none

-- `require_no_qwen_nvml`
unfoldable pub no_qwen : List Application → Option NvmlError
unfolding select
no_qwen apps = if is_empty (select (λ a. a.is_llama) apps) then none else some vram_allocated

abbrev is_unexpected : Option ℕ → Application → Bool
is_unexpected none a = true
is_unexpected (some pid) a = not (a.pid == pid)

-- `require_clean_recovery_nvml`
unfoldable pub clean_recovery : Option ℕ → List Application → Option NvmlError
unfolding expected_qwen no_qwen
clean_recovery qwen apps =
    elim (elim qwen as (λ _. Option NvmlError) [
      | none ↦ no_qwen apps
      | some pid ↦ expected_qwen pid apps
    ]) [
      | some e ↦ some e
      | none ↦ if is_empty (select (is_unexpected qwen) apps) then none else some unexpected_process
    ]

select_none :
    (p : Application → Bool) (apps : List Application)
    → (is_empty (select p apps) ≡ true) ↔ All (λ a. p a ≡ false) apps
unfolding select
select_none p [] = (λ h. tt, λ h. refl)
select_none p (a ∷ as') = (
  λ h. (ground arith, (select_none p as').0 (ground arith)),
  λ h. ground (arith, (select_none p as').1 h.1),
)

module _ (pid : ℕ) where
  from_All :
      (apps : List Application)
      → All (λ a. is_unexpected (some pid) a ≡ false) apps
      → All (λ a. a.pid ≡ pid) apps
  from_All [] h = tt
  from_All (a ∷ as') h = (ground (arith, h.0), from_All as' h.1)

-- Without a Qwen process the NVML report is clean exactly when it names no process.
clean_recovery_idle : (apps : List Application) → (clean_recovery none apps ≡ none) ↔ (apps ≡ [])
unfolding clean_recovery
clean_recovery_idle [] = (λ h. refl, λ h. refl)
clean_recovery_idle (a ∷ as') = (λ h. ground arith, λ h. ground arith)

-- Beside a Qwen process a clean report names that process alone, on as many rows as it has GPUs.
clean_recovery_beside :
    (pid : ℕ) (apps : List Application)
    → clean_recovery (some pid) apps ≡ none
    → (apps ≢ []) × All (λ a. a.pid ≡ pid) apps
unfolding clean_recovery
clean_recovery_beside pid apps h = (
  ground arith,
  from_All pid apps ((select_none (is_unexpected (some pid)) apps).0 (ground arith)),
)
