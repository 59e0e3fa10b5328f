-- ===== src/Prelude/Bytes.antt =====
-- Texts as lists of bytes or characters: newlines, `split` and `rfind`.
use Prim.Native.Nat.{ℕ}
use mathlib.Core.Path.{◌≡◌, refl, ap}
use mathlib.Core.Bool.{false}
use mathlib.Core.Logic.{inl, inr}
use mathlib.Core.Option.{Option, none, some}
use mathlib.Core.List.{List, [], ◌∷◌, ◌++◌}
use native.Mathlib.Omega.{arith}
use recursive_harness_builde.Prelude.Tests.{if◌then◌else◌, Bool-cases, Option-cases}
use recursive_harness_builde.Prelude.Eq.{◌==◌, nat_eq, ==_iff}
use recursive_harness_builde.Prelude.Lists.{All}

abbrev pub newline : ℕ
newline = 10

abbrev pub IsLine : List ℕ → Type 0
IsLine = All (λ b. (b == newline) ≡ false)

abbrev pub prepend : ℕ → List (List ℕ) → List (List ℕ)
prepend c [] = (c ∷ []) ∷ []
prepend c (line ∷ lines) = (c ∷ line) ∷ lines

-- `text.split(sep)` for a separator of one character.
unfoldable pub split_on : ℕ → List ℕ → List (List ℕ)
split_on sep [] = [] ∷ []
split_on sep (c ∷ cs) = if c == sep then [] ∷ split_on sep cs else prepend c (split_on sep cs)

-- The bytes before the last newline and those after it, by `rfind`.
unfoldable pub split_last : List ℕ → Option (List ℕ × List ℕ)
split_last [] = none
split_last (b ∷ bs) = elim (split_last bs) [
  | none ↦ if b == newline then some ([], bs) else none
  | some (xs, ys) ↦ some (b ∷ xs, ys)
]

split_on-cons : (a : List ℕ) → (l : List ℕ) × (ls : List (List ℕ)) × (split_on newline a ≡ l ∷ ls)
unfolding split_on
split_on-cons [] = ([], [], refl)
split_on-cons (c ∷ a) = elim (Bool-cases (c == newline)) [
  | inl b ↦ rw b ([], split_on newline a, refl)
  | inr b ↦ let (l, ls, e) = split_on-cons a in (c ∷ l, ls, rw (b, e) refl)
]

pub split_on-append :
    (a b : List ℕ) → split_on newline (a ++ newline ∷ b) ≡ split_on newline a ++ split_on newline b
unfolding split_on
split_on-append [] b = refl
split_on-append (c ∷ a) b = elim (Bool-cases (c == newline)) [
  | inl e ↦ rw (e, split_on-append a b) refl
  | inr e ↦ let (l, ls, f) = split_on-cons a in rw (e, split_on-append a b, f) refl
]

pub IsLine-append : (a b : List ℕ) → IsLine a → IsLine b → IsLine (a ++ b)
IsLine-append [] b h k = k
IsLine-append (c ∷ a) b h k = (h.0, IsLine-append a b h.1 k)

pub append_nil : (a : List ℕ) → a ++ [] ≡ a
append_nil [] = refl
append_nil (c ∷ a) = ap (λ xs. c ∷ xs) (append_nil a)

pub append_assoc : (a b c : List ℕ) → (a ++ b) ++ c ≡ a ++ (b ++ c)
append_assoc [] b c = refl
append_assoc (d ∷ a) b c = ap (λ xs. d ∷ xs) (append_assoc a b c)

pub split_last-IsLine : (d : List ℕ) → split_last d ≡ none → IsLine d
unfolding split_last
split_last-IsLine [] e = tt
split_last-IsLine (b ∷ bs) e = ground (arith, e, split_last-IsLine bs)

pub split_last-append :
    (d xs ys : List ℕ) → split_last d ≡ some (xs, ys) → (d ≡ xs ++ newline ∷ ys) × IsLine ys
unfolding split_last
split_last-append [] xs ys e = ground (arith, e)
split_last-append (b ∷ bs) xs ys e = elim (Option-cases (split_last bs)) [
  | inl f ↦ ground (arith, e, f, split_last-IsLine bs f, ==_iff b newline)
  | inr ((us, vs), f) ↦ ground (arith, e, f, split_last-append bs us vs f)
]
