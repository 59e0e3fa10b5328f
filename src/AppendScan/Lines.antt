-- ===== src/AppendScan/Lines.antt =====
-- src/obs_agent/append_scan.py: `_fold_bytes`. Bytes and characters are numbers.
use recursive_harness_builde.Prelude.{
  newline, split_on, ℕ, Option, none, some, Bool, true, ◌&&◌, ◌||◌, not, List, [], ◌∷◌, ◌==◌,
  nat_eq, map, foldl, contains, starts_with, includes, if◌then◌else◌,
}

abbrev pub carriage_return : ℕ
carriage_return = 13

-- `"\\u"`
abbrev escape : List ℕ
escape = 92 ∷ 117 ∷ []

-- What a cache is made with. `fold` is total, `decode` is `bytes.decode` with the encoding and the way of
-- errors, `none` where it raises, and `strip` is `str.strip`.
pub record Folder (S : Type 0) : Type 0 where
  pub fold : S → List ℕ → S
  pub initial : S
  pub decode : List ℕ → Option (List ℕ)
  pub strip : List ℕ → List ℕ
  pub needle : Option (List ℕ)
  pub block_bytes : ℕ
  pub maxsize : ℕ
  pub revalidate : ℕ

infixl 5 ◌>>=◌
abbrev pub ◌>>=◌ {ℓ κ} : {A : Type ℓ} {B : Type κ} → Option A → (A → Option B) → Option B
none >>= f = none
some a >>= f = f a

-- `text.replace("\r\n", "\n")`
unfoldable pub join_crlf : List ℕ → List ℕ
join_crlf [] = []
join_crlf (c ∷ cs) =
    if c == carriage_return && starts_with (newline ∷ []) cs then join_crlf cs else c ∷ join_crlf cs

-- `text.replace("\r", "\n")`
unfoldable pub newlines : List ℕ → List ℕ
newlines = map (λ c. if c == carriage_return then newline else c)

unfoldable pub pieces : List ℕ → List (List ℕ)
pieces line =
    if contains line carriage_return
    then split_on newline (newlines (join_crlf line))
    else line ∷ []

abbrev pub passes : Option (List ℕ) → List ℕ → Bool
passes none line = true
passes (some needle) line = includes needle line || includes escape line

module _ {S : Type 0} (x : Folder S) where
  unfoldable pub fold_line : S → List ℕ → S
  fold_line s line =
      if not (passes x.needle line)
      then s
      else foldl (λ t piece. x.fold t (x.strip piece)) s (pieces line)

  -- `_fold_bytes`
  unfoldable pub fold_bytes : S → List ℕ → Option S
  fold_bytes s bs = x.decode bs >>= λ text. some (foldl fold_line s (split_on newline text))
