-- ===== src/Replay/Whole.antt =====
-- src/obs_agent/jsonl_replay.py: the records that were written whole are read back, whatever a power cut
-- has left after them.
use recursive_harness_builde.Prelude.{
  ℕ, suc, ◌+◌, ◌-◌, ◌≡◌, sym, refl, ap, subst, ◌∙◌, inl, inr, none, some, Bool, true, false, List,
  [], ◌∷◌, ◌++◌, nat_eq, length, length-append, take, drop-append, is_empty, contains, newline,
  append_assoc, append_nil, IsLine, All, Bool-cases, arith, split_on,
}
use recursive_harness_builde.Replay.Torn.{
  is_blank, is_pad, rstrip, lstrip, padding_start, torn_after, torn_tail_start, cut_at, body_of,
  solid_lines, records_of,
}
use recursive_harness_builde.Replay.Tails.{
  written, take-append, is_empty-append, rstrip-append, rstrip_padded, rstrip-IsLine, lstrip-split,
  last_line_after, IsEnded, IsRecord, written-IsRecord, written-IsEnded, solid_written,
}

IsLine-front : (a b : List ℕ) → IsLine (a ++ b) → IsLine a
IsLine-front [] b h = tt
IsLine-front (c ∷ a) b h = (h.0, IsLine-front a b h.1)

minus-length : (a b : List ℕ) → length (a ++ b) - length b ≡ length a
minus-length a b = rw (length-append a b) (omega arith)

-- What the code tests of the bytes after a record.
abbrev is_void : List ℕ → Bool
is_void line = is_empty (rstrip is_blank (lstrip is_blank line))

void_nil : (a : List ℕ) → is_void a ≡ true → lstrip is_blank a ≡ []
unfolding rstrip lstrip
void_nil [] h = refl
void_nil (c ∷ a) h = elim (Bool-cases (is_blank c)) [
  | inl e ↦ rw e (void_nil a (rw (lstrip, e) at h))
  | inr e ↦ ground (arith, h, e)
]

cut-length :
    (s pre t u : List ℕ)
    → t ≡ pre ++ u
    → length s + (suc (length t) - length u) ≡ length (s ++ newline ∷ pre)
cut-length s pre t u e =
    omega (arith, ap length e, length-append pre u, length-append s (newline ∷ pre))

unpadded : (s t : List ℕ) → is_void t ≡ true → padding_start s t ≡ none
unpadded s t v = rw (padding_start, v) refl

-- The offset at which padding is cut off.
padding_cut :
    (s pre t : List ℕ)
    → is_void (newline ∷ t) ≡ false
    → t ≡ pre ++ lstrip is_blank t
    → padding_start s (newline ∷ t) ≡ some (length (s ++ newline ∷ pre))
unfolding lstrip contains
padding_cut s pre t v e = rw (padding_start, v) (ap some (cut-length s pre t (lstrip is_blank t) e))

regroup :
    (front last t : List ℕ)
    → (front ++ (last ++ newline ∷ [])) ++ t ≡ (front ++ last) ++ newline ∷ t
regroup front last t =
    append_assoc front (last ++ newline ∷ []) t
    ∙ ap (λ xs. front ++ xs) (append_assoc last (newline ∷ []) t)
    ∙ sym (append_assoc front last (newline ∷ t))

take_padded :
    (s pre suf t : List ℕ)
    → t ≡ pre ++ suf
    → take (length (s ++ newline ∷ pre)) (s ++ newline ∷ t) ≡ s ++ newline ∷ pre
take_padded s pre suf t e =
    ap (λ t. take (length (s ++ newline ∷ pre)) (s ++ newline ∷ t)) e
    ∙ ap (take (length (s ++ newline ∷ pre))) (sym (append_assoc s (newline ∷ pre) suf))
    ∙ take-append (s ++ newline ∷ pre) suf

module _ (is_json is_white : List ℕ → Bool) where
  -- What a torn record may look like: its line is not JSON once the padding is off, if anything is left.
  abbrev pub IsTorn : List ℕ → Type 0
  IsTorn torn =
      IsLine torn × (is_empty (rstrip is_pad torn) ≡ false → is_json (rstrip is_pad torn) ≡ false)

  -- The whole lines `w` stay, and blanks at most after them.
  abbrev IsRead : List ℕ → List ℕ → Type 0
  IsRead w torn =
      (x : List ℕ) × (body_of is_json (w ++ torn) ≡ w ++ x) × IsLine x × (lstrip is_blank x ≡ [])

  torn_after-append :
      (w torn t : List ℕ)
      → IsEnded w
      → IsLine t
      → is_json t ≡ false
      → torn_after is_json (w ++ torn) (w ++ t) ≡ some (length w)
  torn_after-append w torn t e l j = rw (torn_after, last_line_after w t e l, j) refl

  body_torn :
      (w torn : List ℕ)
      → IsEnded w
      → IsTorn torn
      → is_empty (rstrip is_pad torn) ≡ false
      → IsRead w torn
  unfolding body_of torn_tail_start rstrip lstrip
  body_torn w torn h (l, j) e = (
    [],
    rw
        (
          rstrip-append is_pad w torn e,
          is_empty-append is_pad w (rstrip is_pad torn) e,
          torn_after-append w torn (rstrip is_pad torn) h (rstrip-IsLine is_pad torn l) (j e),
          append_nil w,
        )
        (take-append w torn),
    tt,
    refl,
  )

  -- The line of the last record is JSON, so only what follows its newline is looked at.
  torn_after-padded :
      (front last rest : List ℕ)
      → IsEnded front
      → IsLine last
      → is_json last ≡ true
      → torn_after is_json ((front ++ last) ++ rest) (front ++ last)
        ≡ padding_start (front ++ last) rest
  torn_after-padded front last rest e l j =
      rw (torn_after, last_line_after front last e l, j, drop-append (front ++ last) rest) refl

  tail_padded :
      (front last torn : List ℕ)
      → IsEnded front
      → IsRecord is_json is_white last
      → is_empty (rstrip is_pad torn) ≡ true
      → torn_tail_start is_json ((front ++ last) ++ newline ∷ torn)
        ≡ padding_start (front ++ last) (newline ∷ torn)
  unfolding torn_tail_start rstrip contains
  tail_padded front last torn f (l, j, s, v, n) e =
      let whole : rstrip is_pad ((front ++ last) ++ newline ∷ torn) ≡ front ++ last =
        rstrip_padded is_pad (front ++ last) (newline ∷ torn) (rw e refl)
        ∙ rstrip-append is_pad front last (rw s n)
        ∙ ap (λ r. front ++ r) s in
      rw (whole, is_empty-append is_pad front last n)
        (torn_after-padded front last (newline ∷ torn) f l j)

  body_padded :
      (front last torn : List ℕ)
      → IsEnded front
      → IsRecord is_json is_white last
      → IsLine torn
      → is_empty (rstrip is_pad torn) ≡ true
      → IsRead (front ++ (last ++ newline ∷ [])) torn
  unfolding body_of lstrip contains
  body_padded front last torn f k l e = elim (Bool-cases (is_void (newline ∷ torn))) [
    | inl v ↦ (
      torn,
      ap (body_of is_json) (regroup front last torn)
          ∙ ap (λ c. cut_at c ((front ++ last) ++ newline ∷ torn))
              (tail_padded front last torn f k e ∙ unpadded (front ++ last) (newline ∷ torn) v)
          ∙ sym (regroup front last torn),
      l,
      void_nil torn v,
    )
    | inr v ↦
        let (pre, s, n) = lstrip-split is_blank torn in
        (
          pre,
          ap (body_of is_json) (regroup front last torn)
              ∙ ap (λ c. cut_at c ((front ++ last) ++ newline ∷ torn))
                  (tail_padded front last torn f k e ∙ padding_cut (front ++ last) pre torn v s)
              ∙ take_padded (front ++ last) pre (lstrip is_blank torn) torn s
              ∙ sym (regroup front last pre),
          IsLine-front pre (lstrip is_blank torn) (subst IsLine s l),
          n,
        )
  ]

  body_alone : (torn : List ℕ) → is_empty (rstrip is_pad torn) ≡ true → body_of is_json torn ≡ []
  unfolding body_of torn_tail_start take
  body_alone [] e = rw e refl
  body_alone (b ∷ torn) e = rw e refl

  IsRead-padded :
      (rs : List (List ℕ)) (torn : List ℕ)
      → All (IsRecord is_json is_white) rs
      → IsTorn torn
      → is_empty (rstrip is_pad torn) ≡ true
      → IsRead (written rs) torn
  unfolding written rstrip lstrip
  IsRead-padded [] torn h t e = ([], body_alone torn e, tt, refl)
  IsRead-padded (r ∷ rs) torn h t e =
      let (front, last, w, f, k) = written-IsRecord is_json is_white r rs h in
      subst (λ w. IsRead w torn) (sym w) (body_padded front last torn f k t.0 e)

  is_read :
      (rs : List (List ℕ)) (torn : List ℕ)
      → All (IsRecord is_json is_white) rs
      → IsTorn torn
      → IsRead (written rs) torn
  is_read rs torn h t = elim (Bool-cases (is_empty (rstrip is_pad torn))) [
    | inl e ↦ IsRead-padded rs torn h t e
    | inr e ↦ body_torn (written rs) torn (written-IsEnded is_json is_white rs h) t e
  ]

  -- The records that were written whole are what the callers read, in order and to the byte. After them the
  -- file may end in one line more, which a power cut has torn: one that is not JSON once blanks and NULs are
  -- taken off its end, or one of blanks and NULs alone. A line of blanks is taken to be white space.
  pub records_of_written :
      (rs : List (List ℕ)) (torn : List ℕ)
      → All (IsRecord is_json is_white) rs
      → IsTorn torn
      → ((x : List ℕ) → lstrip is_blank x ≡ [] → is_white x ≡ true)
      → records_of is_json is_white (written rs ++ torn) ≡ rs
  unfolding records_of
  records_of_written rs torn h t white =
      let (x, e, l, v) = is_read rs torn h t in
      ap (λ b. solid_lines is_white (split_on newline b)) e
      ∙ solid_written is_json is_white rs x h l (white x v)
