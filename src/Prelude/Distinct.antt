-- ===== src/Prelude/Distinct.antt =====
-- Lists of numbers with no number twice, and how many of them a list can hold.
use Prim.Native.Nat.{ℕ, suc, ◌≤◌}
use mathlib.Core.Path.{◌≡◌, refl, subst}
use mathlib.Core.Logic.{inl, inr}
use mathlib.Core.Bool.{true, false, ◌||◌}
use mathlib.Core.List.{List, [], ◌∷◌, ◌++◌}
use native.Mathlib.Omega.{arith}
use recursive_harness_builde.Prelude.Tests.{Bool-cases}
use recursive_harness_builde.Prelude.Eq.{◌==◌, ==_iff, nat_eq}
use recursive_harness_builde.Prelude.Lists.{All, length, contains, erase}

-- No number stands twice.
abbrev pub IsDistinct : List ℕ → Type 0
IsDistinct [] = Unit
IsDistinct (u ∷ us) = (contains us u ≡ false) × IsDistinct us

abbrev pub IsWithin : List ℕ → List ℕ → Type 0
IsWithin ks us = All (λ u. contains ks u ≡ true) us

length-erase : (u : ℕ) (ks : List ℕ) → contains ks u ≡ true → suc (length (erase u ks)) ≡ length ks
unfolding contains erase
length-erase u [] h = ground (arith, h)
length-erase u (k ∷ ks) h = ground (arith, h, length-erase u ks)

contains-erase :
    (u v : ℕ) (ks : List ℕ)
    → (u == v) ≡ false
    → contains ks v ≡ true
    → contains (erase u ks) v ≡ true
unfolding contains erase
contains-erase u v [] n h = ground (arith, h)
contains-erase u v (k ∷ ks) n h =
    ground (arith, n, h, ==_iff k u, ==_iff u v, contains-erase u v ks n)

IsWithin-erase :
    (u : ℕ) (us ks : List ℕ) → contains us u ≡ false → IsWithin ks us → IsWithin (erase u ks) us
unfolding contains
IsWithin-erase u [] ks n h = tt
IsWithin-erase u (v ∷ us) ks n h = (
  contains-erase u v ks (ground (arith, n, ==_iff u v, ==_iff v u)) h.0,
  IsWithin-erase u us ks (ground (arith, n)) h.1,
)

-- Distinct numbers of a list are no more than it has places.
pub pigeonhole : (us ks : List ℕ) → IsDistinct us → IsWithin ks us → length us ≤ length ks
pigeonhole [] ks d h = omega arith
pigeonhole (u ∷ us) ks d h =
    omega (
      arith,
      length-erase u ks h.0,
      pigeonhole us (erase u ks) d.1 (IsWithin-erase u us ks d.0 h.1),
    )

pub All-contains : (Q : ℕ → Type 0) (us : List ℕ) (u : ℕ) → All Q us → contains us u ≡ true → Q u
unfolding contains
All-contains Q [] u h e = ground (arith, e)
All-contains Q (v ∷ us) u h e = elim (Bool-cases (v == u)) [
  | inl b ↦ subst Q ((==_iff v u).0 b) h.0
  | inr b ↦ All-contains Q us u h.1 (ground (arith, e, b))
]

pub contains-append :
    (us vs : List ℕ) (v : ℕ) → contains (us ++ vs) v ≡ (contains us v || contains vs v)
unfolding contains
contains-append [] vs v = refl
contains-append (u ∷ us) vs v = ground (arith, contains-append us vs v)
