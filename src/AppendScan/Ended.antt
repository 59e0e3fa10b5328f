-- ===== src/AppendScan/Ended.antt =====
-- src/obs_agent/append_scan.py: bytes that end with a newline, such as an entry stands for.
use recursive_harness_builde.Prelude.{
  newline, IsLine, ℕ, ◌≡◌, refl, sym, subst, true, false, List, [], ◌∷◌, ◌++◌, arith,
}

abbrev IsEnding : ℕ → List ℕ → Type 0
IsEnding b [] = b ≡ newline
IsEnding b (c ∷ cs) = IsEnding c cs

-- Nothing, or bytes that end with a newline.
abbrev pub IsEnded : List ℕ → Type 0
IsEnded [] = Unit
IsEnded (b ∷ bs) = IsEnding b bs

append-IsEnding : (b : ℕ) (bs : List ℕ) → IsEnding b (bs ++ newline ∷ [])
append-IsEnding b [] = refl
append-IsEnding b (c ∷ cs) = append-IsEnding c cs

pub append-IsEnded : (bs : List ℕ) → IsEnded (bs ++ newline ∷ [])
append-IsEnded [] = refl
append-IsEnded (b ∷ bs) = append-IsEnding b bs

IsEnding-not_line :
    (b : ℕ) (bs more : List ℕ) → IsEnding b bs → IsLine ((b ∷ bs) ++ more) → true ≡ false
IsEnding-not_line b [] more e l = ground (arith, e, l.0)
IsEnding-not_line b (c ∷ cs) more e l = IsEnding-not_line c cs more e l.1

IsEnding-tail : (b : ℕ) (bs : List ℕ) → IsEnding b bs → IsEnded bs
IsEnding-tail b [] e = tt
IsEnding-tail b (c ∷ cs) e = e

-- What ends with a newline reaches at most to where a last line begins.
pub IsEnded-prefix :
    (read more kept torn : List ℕ)
    → read ++ more ≡ kept ++ torn
    → IsEnded read
    → IsLine torn
    → (rest : List ℕ) × (kept ≡ read ++ rest)
IsEnded-prefix [] more kept torn e n l = (kept, refl)
IsEnded-prefix (a ∷ as') more [] torn e n l =
    ground (arith, IsEnding-not_line a as' more n (subst IsLine (sym e) l))
IsEnded-prefix (a ∷ as') more (b ∷ bs) torn e n l =
    let (rest, f) = IsEnded-prefix as' more bs torn (cc e) (IsEnding-tail a as' n) l in
    (rest, ground (arith, e, f))
