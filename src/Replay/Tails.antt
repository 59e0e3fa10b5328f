-- ===== src/Replay/Tails.antt =====
-- src/obs_agent/jsonl_replay.py: what a reader finds of the records that were written, after a torn one.
use recursive_harness_builde.Prelude.{
  ℕ, ◌≡◌, sym, refl, ap, subst, ◌∙◌, ◌⊎◌, inl, inr, none, some, Bool, true, false, ◌&&◌, List, [],
  ◌∷◌, ◌++◌, nat_eq, length, length-append, take, is_empty, newline, split_on, split_last,
  append_assoc, IsLine, All, Bool-cases, arith,
}
use recursive_harness_builde.Replay.Torn.{is_pad, rstrip, lstrip, last_line, solid_lines}

-- The bytes of records that were written whole, each with its newline.
unfoldable pub written : List (List ℕ) → List ℕ
written [] = []
written (r ∷ rs) = r ++ newline ∷ written rs

pub empty : (a : List ℕ) → is_empty a ≡ true → a ≡ []
empty [] h = refl
empty (b ∷ a) h = ground (arith, h)

pub take-append : (a b : List ℕ) → take (length a) (a ++ b) ≡ a
unfolding take
take-append [] b = refl
take-append (c ∷ a) b = ap (λ xs. c ∷ xs) (take-append a b)

module _ (p : ℕ → Bool) where
  pub is_empty-append : (a b : List ℕ) → is_empty b ≡ false → is_empty (a ++ b) ≡ false
  is_empty-append [] b h = h
  is_empty-append (c ∷ a) b h = refl

  pub rstrip-append :
      (a b : List ℕ) → is_empty (rstrip p b) ≡ false → rstrip p (a ++ b) ≡ a ++ rstrip p b
  unfolding rstrip
  rstrip-append [] b h = refl
  rstrip-append (c ∷ a) b h = rw (rstrip-append a b h, is_empty-append a (rstrip p b) h) refl

  pub rstrip_padded : (a b : List ℕ) → is_empty (rstrip p b) ≡ true → rstrip p (a ++ b) ≡ rstrip p a
  unfolding rstrip
  rstrip_padded [] b h = empty (rstrip p b) h
  rstrip_padded (c ∷ a) b h = rw (rstrip_padded a b h) refl

  pub rstrip-IsLine : (a : List ℕ) → IsLine a → IsLine (rstrip p a)
  unfolding rstrip
  rstrip-IsLine [] h = tt
  rstrip-IsLine (c ∷ a) h = elim (Bool-cases (is_empty (rstrip p a) && p c)) [
    | inl e ↦ rw e tt
    | inr e ↦ rw e (h.0, rstrip-IsLine a h.1)
  ]

  -- What `lstrip` takes away.
  pub lstrip-split : (a : List ℕ) → (pre : List ℕ) × (a ≡ pre ++ lstrip p a) × (lstrip p pre ≡ [])
  unfolding lstrip
  lstrip-split [] = ([], refl, refl)
  lstrip-split (c ∷ a) = elim (Bool-cases (p c)) [
    | inl e ↦ let (pre, s, v) = lstrip-split a in (c ∷ pre, rw e (ap (λ xs. c ∷ xs) s), rw e v)
    | inr e ↦ rw e ([], refl, refl)
  ]

split_on-line :
    (a b : List ℕ) → IsLine a → split_on newline (a ++ newline ∷ b) ≡ a ∷ split_on newline b
unfolding split_on
split_on-line [] b h = refl
split_on-line (c ∷ a) b h = rw (h.0, split_on-line a b h.1) refl

split_on_last : (a : List ℕ) → IsLine a → split_on newline a ≡ a ∷ []
unfolding split_on
split_on_last [] h = refl
split_on_last (c ∷ a) h = rw (h.0, split_on_last a h.1) refl

split_last_line : (a : List ℕ) → IsLine a → split_last a ≡ none
unfolding split_last
split_last_line [] h = refl
split_last_line (c ∷ a) h = rw (split_last_line a h.1, h.0) refl

split_last_after : (a b : List ℕ) → IsLine b → split_last (a ++ newline ∷ b) ≡ some (a, b)
unfolding split_last
split_last_after [] b h = rw (split_last_line b h) refl
split_last_after (c ∷ a) b h = rw (split_last_after a b h) refl

-- Nothing, or lines with their newlines.
abbrev pub IsEnded : List ℕ → Type 0
IsEnded w = (w ≡ []) ⊎ ((f : List ℕ) × (w ≡ f ++ newline ∷ []))

pub last_line_after : (w t : List ℕ) → IsEnded w → IsLine t → last_line (w ++ t) ≡ (length w, t)
last_line_after w t (inl e) l =
    subst (λ v. last_line (v ++ t) ≡ (length v, t)) (sym e)
      (rw (last_line, split_last_line t l) refl)
last_line_after w t (inr (f, e)) l =
    subst (λ v. last_line (v ++ t) ≡ (length v, t)) (sym e)
      (ap last_line (append_assoc f (newline ∷ []) t)
        ∙ rw (last_line, split_last_after f t l, length-append f (newline ∷ [])) refl)

module _ (is_json is_white : List ℕ → Bool) where
  -- A record as a writer writes it: one line of JSON, whose last byte is no blank and no NUL,
  -- and which is not white space.
  abbrev pub IsRecord : List ℕ → Type 0
  IsRecord r =
      IsLine r
      × (is_json r ≡ true)
      × (rstrip is_pad r ≡ r)
      × (is_white r ≡ false)
      × (is_empty r ≡ false)

  ended : (r front : List ℕ) → IsEnded front → IsEnded (r ++ newline ∷ front)
  ended r front (inl e) = inr (r, ap (λ w. r ++ newline ∷ w) e)
  ended r front (inr (f, e)) = inr (
    r ++ newline ∷ f,
    ap (λ w. r ++ newline ∷ w) e ∙ sym (append_assoc r (newline ∷ f) (newline ∷ [])),
  )

  -- The last record, and what stands before it.
  pub written-IsRecord :
      (r : List ℕ) (rs : List (List ℕ))
      → All IsRecord (r ∷ rs)
      → (front last : List ℕ) × (written (r ∷ rs) ≡ front ++ (last ++ newline ∷ []))
        × IsEnded front
        × IsRecord last
  unfolding written
  written-IsRecord r [] h = ([], r, refl, inl refl, h.0)
  written-IsRecord r (s ∷ rs) h =
      let (front, last, e, f, k) = written-IsRecord s rs h.1 in
      (
        r ++ newline ∷ front,
        last,
        ap (λ w. r ++ newline ∷ w) e
            ∙ sym (append_assoc r (newline ∷ front) (last ++ newline ∷ [])),
        ended r front f,
        k,
      )

  pub written-IsEnded : (rs : List (List ℕ)) → All IsRecord rs → IsEnded (written rs)
  unfolding written
  written-IsEnded [] h = inl refl
  written-IsEnded (r ∷ rs) h =
      let (front, last, e, f, k) = written-IsRecord r rs h in
      inr (front ++ last, e ∙ sym (append_assoc front last (newline ∷ [])))

  -- Where blank bytes alone follow them, the records are read back.
  pub solid_written :
      (rs : List (List ℕ)) (x : List ℕ)
      → All IsRecord rs
      → IsLine x
      → is_white x ≡ true
      → solid_lines is_white (split_on newline (written rs ++ x)) ≡ rs
  unfolding written solid_lines
  solid_written [] x h l v = rw (split_on_last x l, solid_lines, v) refl
  solid_written (r ∷ rs) x h l v =
      rw
        (
          append_assoc r (newline ∷ written rs) x,
          split_on-line r (written rs ++ x) h.0.0,
          solid_lines,
          h.0.3,
        )
        (ap (λ ls. r ∷ ls) (solid_written rs x h.1 l v))
