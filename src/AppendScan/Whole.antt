-- ===== src/AppendScan/Whole.antt =====
-- src/obs_agent/append_scan.py: the fold over a whole file, line by line, as a reader of the file would
-- do it, and how it comes apart at a newline.
use recursive_harness_builde.Prelude.{
  newline, prepend, split_on, IsLine, IsLine-append, split_on-append, append_nil, append_assoc, ℕ,
  ◌≡◌, sym, refl, ap, Option, some, List, [], ◌∷◌, ◌++◌, ◌==◌, nat_eq, foldl-append, Bool-cases,
  Option-cases, inl, inr, ==_iff, if◌then◌else◌,
}
use recursive_harness_builde.AppendScan.Lines.{Folder, fold_line, fold_bytes, ◌>>=◌}

-- The lines of a file without their newlines; a last line without a newline counts, if it is not empty.
unfoldable pub file_lines : List ℕ → List (List ℕ)
file_lines [] = []
file_lines (b ∷ bs) = if b == newline then [] ∷ file_lines bs else prepend b (file_lines bs)

-- The decoding of bytes with a newline among them is that of what stands before and after it: so it is
-- for UTF-8.
abbrev pub IsLinewise : {S : Type 0} → Folder S → Type 0
IsLinewise x =
    (a b : List ℕ)
    → x.decode (a ++ newline ∷ b)
      ≡ (x.decode a >>= λ s. x.decode b >>= λ t. some (s ++ newline ∷ t))

module _ {S : Type 0} (x : Folder S) where
  -- The lines are decoded and folded one by one.
  unfoldable pub fold_lines : S → List (List ℕ) → Option S
  fold_lines s [] = some s
  fold_lines s (line ∷ lines) = fold_bytes x s line >>= λ t. fold_lines t lines

  -- What a reader that keeps nothing answers.
  abbrev pub whole : List ℕ → Option S
  whole bytes = fold_lines x.initial (file_lines bytes)

pub file_lines-append : (a b : List ℕ) → IsLine a → file_lines (a ++ newline ∷ b) ≡ a ∷ file_lines b
unfolding file_lines
file_lines-append [] b h = refl
file_lines-append (c ∷ a) b h = rw (h.0, file_lines-append a b h.1) refl

pub file_lines-torn : (b : ℕ) (bs : List ℕ) → IsLine (b ∷ bs) → file_lines (b ∷ bs) ≡ (b ∷ bs) ∷ []
unfolding file_lines
file_lines-torn b [] h = rw (h.0) refl
file_lines-torn b (c ∷ cs) h = rw (h.0, file_lines-torn c cs h.1) refl

module _ {S : Type 0} (x : Folder S) (linewise : IsLinewise x) where
  pub fold_bytes-append :
      (s : S) (a b : List ℕ)
      → fold_bytes x s (a ++ newline ∷ b) ≡ (fold_bytes x s a >>= λ t. fold_bytes x t b)
  unfolding fold_bytes
  fold_bytes-append s a b = rw (linewise a b) (elim (Option-cases (x.decode a)) [
    | inl d ↦ rw d refl
    | inr (t, d) ↦ rw d (elim (Option-cases (x.decode b)) [
      | inl e ↦ rw e refl
      | inr (u, e) ↦
          rw (e, split_on-append t u)
            (ap some (foldl-append (fold_line x) s (split_on newline t) (split_on newline u)))
    ])
  ])

  -- The fold over complete lines at once, and over them one by one.
  joined :
      (s : S) (line xs more : List ℕ)
      → IsLine line
      → fold_lines x s (file_lines (line ++ (xs ++ newline ∷ more)))
        ≡ (fold_bytes x s (line ++ xs) >>= λ t. fold_lines x t (file_lines more))
  unfolding fold_lines
  joined s line [] more h = rw (append_nil line, file_lines-append line more h) refl
  joined s line (c ∷ cs) more h = elim (Bool-cases (c == newline)) [
    | inl b ↦
        rw
          (
            (==_iff c newline).0 b,
            file_lines-append line (cs ++ newline ∷ more) h,
            fold_bytes-append s line cs,
          )
          (elim (Option-cases (fold_bytes x s line)) [
            | inl e ↦ rw e refl
            | inr (t, e) ↦ rw e (joined t [] cs more tt)
          ])
    | inr b ↦
        rw
          (
            sym (append_assoc line (c ∷ []) (cs ++ newline ∷ more)),
            sym (append_assoc line (c ∷ []) cs),
          )
          (joined s (line ++ c ∷ []) cs more (IsLine-append line (c ∷ []) h (b, tt)))
  ]

  pub fold_lines-append :
      (s : S) (xs more : List ℕ)
      → fold_lines x s (file_lines (xs ++ newline ∷ more))
        ≡ (fold_bytes x s xs >>= λ t. fold_lines x t (file_lines more))
  fold_lines-append s xs more = joined s [] xs more tt
