-- ===== src/Prelude/Dict.antt =====
-- A Python dictionary as an association list, in order of insertion.
use mathlib.Core.Path.{◌≡◌, sym, subst, refl}
use mathlib.Core.List.{List, [], ◌∷◌}
use mathlib.Core.Option.{Option, none, some}
use native.Mathlib.Omega.{arith}
use recursive_harness_builde.Prelude.Tests.{if◌then◌else◌, Bool-cases}
use recursive_harness_builde.Prelude.Lists.{All}
use mathlib.Core.Logic.{inl, inr}
use recursive_harness_builde.Prelude.Eq.{Eq, ◌==◌, ==_iff}

module _ {ℓ κ} {K : Type ℓ} {V : Type κ} ⦃e : Eq K⦄ where
  -- `d.get(k)`
  unfoldable pub lookup : K → List (K × V) → Option V
  lookup k [] = none
  lookup k ((j, v) ∷ d) = if j == k then some v else lookup k d

  -- `d[k] = v`: a key that is there keeps its place
  unfoldable pub insert : K → V → List (K × V) → List (K × V)
  insert k v [] = (k, v) ∷ []
  insert k v ((j, w) ∷ d) = if j == k then (j, v) ∷ d else (j, w) ∷ insert k v d

  -- `d.pop(k, None)`
  unfoldable pub remove : K → List (K × V) → List (K × V)
  remove k [] = []
  remove k ((j, w) ∷ d) = let rest = remove k d in if j == k then rest else (j, w) ∷ rest

  pub lookup-insert :
      (k j : K) (v : V) (d : List (K × V))
      → lookup j (insert k v d) ≡ (if k == j then some v else lookup j d)
  unfolding lookup insert
  lookup-insert k j v [] = refl
  lookup-insert k j v ((i, w) ∷ d) =
      ground (arith, ==_iff k j, ==_iff i k, ==_iff i j, lookup-insert k j v d)

  pub lookup-remove :
      (k j : K) (d : List (K × V)) → lookup j (remove k d) ≡ (if k == j then none else lookup j d)
  unfolding lookup remove
  lookup-remove k j [] = ground arith
  lookup-remove k j ((i, w) ∷ d) =
      ground (arith, ==_iff k j, ==_iff i k, ==_iff i j, lookup-remove k j d)

  module _ {μ} (Q : K → V → Type μ) where
    -- Every pair of the dictionary satisfies `Q`.
    abbrev pub Entries : List (K × V) → Type μ
    Entries d = All (λ kv. Q kv.0 kv.1) d

    pub Entries-lookup :
        (k : K) (v : V) (d : List (K × V)) → Entries d → lookup k d ≡ some v → Q k v
    unfolding lookup
    Entries-lookup k v [] h e = ground (arith, e)
    Entries-lookup k v ((j, w) ∷ d) h e = elim (Bool-cases (j == k)) [
      | inl b ↦
          subst (λ i. Q i v) ((==_iff j k).0 b) (subst (λ u. Q j u) (ground (arith, e, b)) h.0)
      | inr b ↦ Entries-lookup k v d h.1 (ground (arith, e, b))
    ]

    pub Entries-insert :
        (k : K) (v : V) (d : List (K × V)) → Q k v → Entries d → Entries (insert k v d)
    unfolding insert
    Entries-insert k v [] q h = (q, tt)
    Entries-insert k v ((j, w) ∷ d) q h = elim (Bool-cases (j == k)) [
      | inl b ↦ rw (b) (subst (λ i. Q i v) (sym ((==_iff j k).0 b)) q, h.1)
      | inr b ↦ rw b (h.0, Entries-insert k v d q h.1)
    ]

    pub Entries-remove : (k : K) (d : List (K × V)) → Entries d → Entries (remove k d)
    unfolding remove
    Entries-remove k [] h = tt
    Entries-remove k ((j, w) ∷ d) h = elim (Bool-cases (j == k)) [
      | inl b ↦ rw b (Entries-remove k d h.1)
      | inr b ↦ rw b (h.0, Entries-remove k d h.1)
    ]
