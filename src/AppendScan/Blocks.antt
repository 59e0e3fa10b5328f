-- ===== src/AppendScan/Blocks.antt =====
-- src/obs_agent/append_scan.py: the loop over the blocks of a file, from any byte after a newline.
use recursive_harness_builde.Prelude.{
  newline, IsLine, append_nil, append_assoc, split_last, split_last-IsLine, split_last-append, ℕ,
  zero, suc, ◌≡◌, sym, refl, subst, ap, ◌∙◌, inl, inr, ◌<◌, ◌≤◌, none, some, true, false, List, [],
  ◌∷◌, ◌++◌, nat_eq, Bool-cases, Option-cases, arith, length, length-append, take, drop, take-drop,
  is_empty,
}
use recursive_harness_builde.AppendScan.Lines.{Folder, fold_bytes}
use recursive_harness_builde.AppendScan.Whole.{
  file_lines, file_lines-torn, fold_lines, fold_lines-append, whole, IsLinewise,
}
use recursive_harness_builde.AppendScan.Ended.{IsEnded, append-IsEnded}
use recursive_harness_builde.AppendScan.Scan.{
  Progress, Reading, finished, absorbed, absorb, read_blocks, answer_of, finish,
}
use recursive_harness_builde.AppendScan.Scan.Reading.{undecodable, stuck}

length-drop-le : (n : ℕ) (bs : List ℕ) → length (drop n bs) ≤ length bs
unfolding drop
length-drop-le zero bs = omega arith
length-drop-le (suc n) [] = omega arith
length-drop-le (suc n) (b ∷ bs) = omega (arith, length-drop-le n bs)

take-empty : (n : ℕ) (bs : List ℕ) → 0 < n → is_empty (take n bs) ≡ true → bs ≡ []
unfolding take
take-empty zero bs h e = ground (arith, h)
take-empty (suc n) [] h e = refl
take-empty (suc n) (b ∷ bs) h e = ground (arith, e)

pub length-drop-lt :
    (n : ℕ) (bs : List ℕ) → 0 < n → is_empty (take n bs) ≡ false → length (drop n bs) < length bs
unfolding take drop
length-drop-lt zero bs h e = ground (arith, h)
length-drop-lt (suc n) [] h e = ground (arith, e)
length-drop-lt (suc n) (b ∷ bs) h e = omega (arith, length-drop-le n bs)

module _ {S : Type 0} (x : Folder S) (linewise : IsLinewise x) where
  -- The progress after the bytes `read`, whatever comes after them.
  pub record IsAt (p : Progress S) (read : List ℕ) : Type 0 where
    pub ended : IsEnded read
    pub offset : p.offset ≡ length read
    pub folded : (more : List ℕ) → whole x (read ++ more) ≡ fold_lines x p.state (file_lines more)

  absorb-IsAt :
      (p q : Progress S) (read xs : List ℕ)
      → IsAt p read
      → absorb x p xs ≡ some q
      → IsAt q (read ++ (xs ++ newline ∷ []))
  unfolding absorb
  absorb-IsAt p q read xs h e = elim (Option-cases (fold_bytes x p.state xs)) [
    | inl f ↦ ground (arith, e, f)
    | inr (s, f) ↦
        subst (λ r. IsAt r (read ++ (xs ++ newline ∷ []))) (same s f)
          (record {
            ended = rw (sym (append_assoc read xs (newline ∷ []))) (append-IsEnded (read ++ xs));
            offset = omega (arith, h.offset, length-append read (xs ++ newline ∷ []));
            folded = λ more.
                rw
                  (
                    append_assoc read (xs ++ newline ∷ []) more,
                    append_assoc xs (newline ∷ []) more,
                    h.folded (xs ++ newline ∷ more),
                    fold_lines-append x linewise p.state xs more,
                    f,
                  )
                  refl;
          })
  ]
    where
      same : (s : S) → fold_bytes x p.state xs ≡ some s → absorbed x p (xs ++ newline ∷ []) s ≡ q
      same s f = ground (arith, e, f)

  absorb-none :
      (p : Progress S) (read xs more : List ℕ)
      → IsAt p read
      → absorb x p xs ≡ none
      → whole x (read ++ (xs ++ newline ∷ more)) ≡ none
  unfolding absorb
  absorb-none p read xs more h e = elim (Option-cases (fold_bytes x p.state xs)) [
    | inl f ↦
        rw (h.folded (xs ++ newline ∷ more), fold_lines-append x linewise p.state xs more, f) refl
    | inr (s, f) ↦ ground (arith, e, f)
  ]

  pub finish-IsAt :
      (p : Progress S) (read carry : List ℕ)
      → IsAt p read
      → IsLine carry
      → finish x carry p ≡ answer_of x (whole x (read ++ carry))
  unfolding fold_lines file_lines
  finish-IsAt p read [] h l = sym (ap (answer_of x) (h.folded []))
  finish-IsAt p read (b ∷ bs) h l =
      rw (h.folded (b ∷ bs), file_lines-torn b bs l)
        (elim (Option-cases (fold_bytes x p.state (b ∷ bs))) [
          | inl f ↦ rw f refl
          | inr (s, f) ↦ rw f refl
        ])

  parts :
      (carry rest : List ℕ)
      → (carry ++ take x.block_bytes rest) ++ drop x.block_bytes rest ≡ carry ++ rest
  parts carry rest =
      append_assoc carry (take x.block_bytes rest) (drop x.block_bytes rest)
      ∙ ap (λ bs. carry ++ bs) (take-drop x.block_bytes rest)

  cut :
      (carry rest xs ys : List ℕ)
      → split_last (carry ++ take x.block_bytes rest) ≡ some (xs, ys)
      → xs ++ newline ∷ (ys ++ drop x.block_bytes rest) ≡ carry ++ rest
  cut carry rest xs ys s =
      sym (append_assoc xs (newline ∷ ys) (drop x.block_bytes rest))
      ∙ ap (λ bs. bs ++ drop x.block_bytes rest)
          (sym (split_last-append (carry ++ take x.block_bytes rest) xs ys s).0)
      ∙ parts carry rest

  regroup :
      (carry rest read xs ys : List ℕ)
      → split_last (carry ++ take x.block_bytes rest) ≡ some (xs, ys)
      → (read ++ (xs ++ newline ∷ [])) ++ (ys ++ drop x.block_bytes rest) ≡ read ++ (carry ++ rest)
  regroup carry rest read xs ys s =
      append_assoc read (xs ++ newline ∷ []) (ys ++ drop x.block_bytes rest)
      ∙ ap (λ bs. read ++ bs)
          (append_assoc xs (newline ∷ []) (ys ++ drop x.block_bytes rest) ∙ cut carry rest xs ys s)

  module _ (fuel : ℕ) (rest carry : List ℕ) (p : Progress S) where
    last_round :
        is_empty (take x.block_bytes rest) ≡ true
        → read_blocks x (suc fuel) rest carry p ≡ finished p carry
    unfolding read_blocks
    last_round e = rw (read_blocks, e) refl

    module _ (e : is_empty (take x.block_bytes rest) ≡ false) where
      carried_round :
          split_last (carry ++ take x.block_bytes rest) ≡ none
          → read_blocks x (suc fuel) rest carry p
            ≡ read_blocks x fuel (drop x.block_bytes rest) (carry ++ take x.block_bytes rest) p
      unfolding read_blocks
      carried_round s = rw (read_blocks, e, s) refl

      module _ (xs ys : List ℕ)
          (s : split_last (carry ++ take x.block_bytes rest) ≡ some (xs, ys)) where
        failed_round : absorb x p xs ≡ none → read_blocks x (suc fuel) rest carry p ≡ undecodable
        unfolding read_blocks
        failed_round a = rw (read_blocks, e, s, a) refl

        folded_round :
            (q : Progress S)
            → absorb x p xs ≡ some q
            → read_blocks x (suc fuel) rest carry p
              ≡ read_blocks x fuel (drop x.block_bytes rest) ys q
        unfolding read_blocks
        folded_round q a = rw (read_blocks, e, s, a) refl

  -- The loop over the blocks gets through, with all complete lines folded, or a whole reader fails too.
  abbrev pub IsThrough : List ℕ → Reading S → Type 0
  IsThrough bytes (finished q carry) =
      (read : List ℕ) × (read ++ carry ≡ bytes) × IsAt q read × IsLine carry
  IsThrough bytes undecodable = whole x bytes ≡ none
  IsThrough bytes stuck = true ≡ false

  pub read_blocks-IsThrough :
      0 < x.block_bytes
      → (fuel : ℕ) (rest carry read : List ℕ) (p : Progress S) → length rest < fuel
      → IsAt p read
      → IsLine carry
      → IsThrough (read ++ (carry ++ rest)) (read_blocks x fuel rest carry p)
  read_blocks-IsThrough k zero rest carry read p f h l = ground (arith, f)
  read_blocks-IsThrough k (suc fuel) rest carry read p f h l =
      elim (Bool-cases (is_empty (take x.block_bytes rest))) [
        | inl e ↦
            rw (last_round fuel rest carry p e)
              (read, rw (take-empty x.block_bytes rest k e, append_nil carry) refl, h, l)
        | inr e ↦ elim (Option-cases (split_last (carry ++ take x.block_bytes rest))) [
          | inl s ↦ rw (carried_round fuel rest carry p e s) (
              subst
                (λ bs. IsThrough (read ++ bs) (
                  read_blocks x fuel (drop x.block_bytes rest) (carry ++ take x.block_bytes rest)
                    p))
                (parts carry rest)
                (read_blocks-IsThrough k fuel (drop x.block_bytes rest)
                  (carry ++ take x.block_bytes rest) read p
                  (omega (arith, f, length-drop-lt x.block_bytes rest k e)) h
                  (split_last-IsLine _ s)))
          | inr ((xs, ys), s) ↦ elim (Option-cases (absorb x p xs)) [
            | inl a ↦ rw (failed_round fuel rest carry p e xs ys s a) (
                subst (λ bs. whole x (read ++ bs) ≡ none) (cut carry rest xs ys s)
                  (absorb-none p read xs (ys ++ drop x.block_bytes rest) h a))
            | inr (q, a) ↦ rw (folded_round fuel rest carry p e xs ys s q a) (
                subst (λ bs. IsThrough bs (read_blocks x fuel (drop x.block_bytes rest) ys q))
                  (regroup carry rest read xs ys s)
                  (read_blocks-IsThrough k fuel (drop x.block_bytes rest) ys
                    (read ++ (xs ++ newline ∷ [])) q
                    (omega (arith, f, length-drop-lt x.block_bytes rest k e))
                    (absorb-IsAt p q read xs h a) (split_last-append _ xs ys s).1))
          ]
        ]
      ]
