-- ===== src/Prelude/Text.antt =====
-- Texts as lists of character codes.
use Prim.Native.Char.{code}
use Prim.Native.Nat.{ℕ}
use Prim.Native.String.{String}
use mathlib.Core.Bool.{Bool, true, false, ◌&&◌, ◌||◌}
use mathlib.Core.List.{List, [], ◌∷◌}
use recursive_harness_builde.Prelude.Eq.{Eq, ◌==◌}

abbrev pub codes : String → List ℕ
codes String.[] = []
codes (String.◌∷◌ first rest) = code first ∷ codes rest

module _ {κ} {T : Type κ} ⦃d : Eq T⦄ where
  -- `whole.startswith(part)`
  unfoldable pub starts_with : List T → List T → Bool
  starts_with [] whole = true
  starts_with (p ∷ ps) [] = false
  starts_with (p ∷ ps) (c ∷ cs) = p == c && starts_with ps cs

  -- `part in whole`
  unfoldable pub includes : List T → List T → Bool
  includes part [] = starts_with part []
  includes part (c ∷ cs) = starts_with part (c ∷ cs) || includes part cs
