-- ===== src/CacheGate/Verdict.antt =====
-- src/obs_agent/cache_gate.py: what it takes for `check` to pass, and to refuse.
use mathlib.Core.List.{Memᴰ}
use mathlib.Core.List.Memᴰ.{head, tail}
use recursive_harness_builde.Prelude.{
  ◌≡◌, ◌≢◌, refl, ap, sym, ◌∙◌, String, Option, none, some, Bool, true, false, List, [], ◌∷◌, ◌++◌,
  All, leb, arith, contains, string_eq, inl, inr, ◌⊎◌, Option-cases, Bool-cases, List-cases,
  is_some, is_empty, ◌&&◌, if◌then◌else◌,
}
use recursive_harness_builde.CacheGate.Reports.{Identity, pass}
use recursive_harness_builde.CacheGate.Matching.{
  report_matches, matching_report, IsOfCode, AllResolved,
}
use recursive_harness_builde.CacheGate.Search.{
  Loaded, put_newest, newest_first, reruns_of, first_match, find_passing_report, Running,
  Repository, base_of, changed_files, sensitive_of, both, proxy_changed, touched_files, check,
}

put_newest-Mem : (x l : Loaded) (ks : List Loaded) → Memᴰ x (put_newest l ks) → Memᴰ x (l ∷ ks)
unfolding put_newest
put_newest-Mem x l [] m = m
put_newest-Mem x l (k ∷ ks) m = elim (Bool-cases (leb k.mtime l.mtime)) [
  | inl e ↦ rw e at m
  | inr e ↦ swap (put_newest-Mem x l ks) (rw e at m)
]
  where
    swap :
        (Memᴰ x (put_newest l ks) → Memᴰ x (l ∷ ks))
        → Memᴰ x (k ∷ put_newest l ks)
        → Memᴰ x (l ∷ k ∷ ks)
    swap f (head e) = tail (head e)
    swap f (tail n) = elim (f n) [ head e ↦ head e | tail o ↦ tail (tail o) ]

newest_first-Mem : (x : Loaded) (ls : List Loaded) → Memᴰ x (newest_first ls) → Memᴰ x ls
unfolding newest_first
newest_first-Mem x [] m = m
newest_first-Mem x (l ∷ ls) m =
    step (put_newest-Mem x l (newest_first ls) m) (newest_first-Mem x ls)
  where
    step : Memᴰ x (l ∷ newest_first ls) → (Memᴰ x (newest_first ls) → Memᴰ x ls) → Memᴰ x (l ∷ ls)
    step (head e) f = head e
    step (tail n) f = tail (f n)

put_newest-All :
    (P : Loaded → Type 0) (l : Loaded) (ks : List Loaded) → All P (put_newest l ks) → P l × All P ks
unfolding put_newest
put_newest-All P l [] h = h
put_newest-All P l (k ∷ ks) h = elim (Bool-cases (leb k.mtime l.mtime)) [
  | inl e ↦ rw e at h
  | inr e ↦
      let h' : P k × All P (put_newest l ks) = rw e at h in
      let r = put_newest-All P l ks h'.1 in (r.0, (h'.0, r.1))
]

newest_first-All : (P : Loaded → Type 0) (ls : List Loaded) → All P (newest_first ls) → All P ls
unfolding newest_first
newest_first-All P [] h = h
newest_first-All P (l ∷ ls) h =
    let r = put_newest-All P l (newest_first ls) h in (r.0, newest_first-All P ls r.1)

module _ (target : Identity) (loaded : List Loaded) where
  abbrev matches : Loaded → Bool
  matches l = report_matches l.report target (reruns_of target loaded l)

  first_match-some :
      (d : String) (ls : List Loaded)
      → first_match target loaded ls ≡ some d
      → (l : Loaded) × Memᴰ l ls × (l.directory ≡ d) × (matches l ≡ true)
  unfolding first_match
  first_match-some d [] h = cc
  first_match-some d (l ∷ ls) h = elim (Bool-cases (matches l)) [
    | inl e ↦ (l, head refl, ground arith, e)
    | inr e ↦ let (k, m, p, q) = first_match-some d ls (rw e at h) in (k, tail m, p, q)
  ]

  first_match-none :
      (ls : List Loaded) → first_match target loaded ls ≡ none → All (λ l. matches l ≡ false) ls
  unfolding first_match
  first_match-none [] h = tt
  first_match-none (l ∷ ls) h = (ground arith, first_match-none ls (ground arith))

module _ (target : Identity) (read : List Loaded) where
  -- A report that the search finds is one of those read, and it matches with its reruns among them.
  found_report :
      (d : String)
      → find_passing_report target read ≡ some d
      → (l : Loaded) × Memᴰ l read
        × (l.directory ≡ d)
        × (matches target (newest_first read) l ≡ true)
  unfolding find_passing_report
  found_report d h =
      let (l, m, e, p) = first_match-some target (newest_first read) d (newest_first read) h in
      (l, newest_first-Mem l read m, e, p)

  none-matches :
      find_passing_report target read ≡ none
      → All (λ l. matches target (newest_first read) l ≡ false) read
  unfolding find_passing_report
  none-matches h =
      newest_first-All (λ l. matches target (newest_first read) l ≡ false) read
        (first_match-none target (newest_first read) (newest_first read) h)

both_none : (xs ys : List String) → both xs ys ≡ [] → All (λ x. contains ys x ≡ false) xs
unfolding both
both_none [] ys h = tt
both_none (x ∷ xs) ys h = (ground arith, both_none xs ys (ground arith))

-- Nothing that the target changes is cache-sensitive, as far as a known base shows.
pub record IsUntouched (repo : Repository) (target : Identity) (base : Option String)
    (running : Option Running) : Type 0 where
  pub files : List String
  pub known : changed_files repo (base_of base running) ≡ some files
  pub none_sensitive :
      All (λ f. contains (sensitive_of repo (base_of base running)) f ≡ false) files
  pub same_proxy : proxy_changed running target ≡ false

append_none :
    (xs : List String) (y : String) (b : Bool)
    → xs ++ (if b then y ∷ [] else []) ≡ []
    → (xs ≡ []) × (b ≡ false)
append_none [] y true h = cc
append_none [] y false h = (refl, refl)
append_none (x ∷ xs) y b h = cc

untouched :
    (files sensitive : List String) (running : Option Running) (target : Identity)
    → touched_files (some files) sensitive running target ≡ []
    → All (λ f. contains sensitive f ≡ false) files × (proxy_changed running target ≡ false)
unfolding touched_files
untouched files sensitive running target h =
    let (none_both, same) = append_none (both files sensitive) _ (proxy_changed running target) h in
    (both_none files sensitive none_both, same)

false≢true : false ≢ true
false≢true e = cc

module _ (repo : Repository) (target : Identity) (base : Option String) (running : Option Running)
    (read : List Loaded) where
  abbrev pub changed : Option (List String)
  changed = changed_files repo (base_of base running)

  abbrev pub touched : List String
  touched = touched_files changed (sensitive_of repo (base_of base running)) running target

  -- The two ways on: the shortcut, or the result of the search.
  check-cases :
      ((files : List String) × (changed ≡ some files)
        × (touched ≡ [])
        × (check repo target base running read ≡ record { ok = true; touched = []; report = none }))
      ⊎ (((changed ≡ none) ⊎ (touched ≢ []))
          × (((d : String) × (find_passing_report target read ≡ some d)
                × (check repo target base running read
                    ≡ record { ok = true; touched = touched; report = some d }))
              ⊎ ((find_passing_report target read ≡ none)
                  × (check repo target base running read
                      ≡ record { ok = false; touched = touched; report = none }))))
  unfolding check
  check-cases = elim (Option-cases changed) [
    | inl unknown ↦ inr (inl unknown, searched (ground arith))
    | inr (files, known) ↦ elim (List-cases touched) [
      | inl e ↦ inl (files, known, e, ground arith)
      | inr (f, fs, e) ↦ inr (inr (ground arith), searched (ground arith))
    ]
  ]
    where
      searched :
          (is_some changed && is_empty touched ≡ false)
          → ((d : String) × (find_passing_report target read ≡ some d)
              × (check repo target base running read
                  ≡ record { ok = true; touched = touched; report = some d }))
            ⊎ ((find_passing_report target read ≡ none)
                × (check repo target base running read
                    ≡ record { ok = false; touched = touched; report = none }))
      searched h = elim (Option-cases (find_passing_report target read)) [
        | inl e ↦ inr (e, rw (h, e))
        | inr (d, e) ↦ inl (d, e, rw (h, e))
      ]

  -- The gate passes only where a known base shows no cache-sensitive change and no other CLIProxyAPI,
  -- or where one of the reports that were read is of exactly the target's code, ran on both provider
  -- routes, and passed or had every scenario resolved on reruns.
  pub gate_passes :
      (check repo target base running read).ok ≡ true
      → IsUntouched repo target base running
        ⊎ ((l : Loaded) × Memᴰ l read
            × ((check repo target base running read).report ≡ some l.directory)
            × IsOfCode l.report target
            × (contains l.report.providers "anthropic" ≡ true)
            × (contains l.report.providers "codex" ≡ true)
            × ((l.report.result ≡ pass)
                ⊎ AllResolved l.report (reruns_of target (newest_first read) l)))
  gate_passes h = elim check-cases [
    | inl (files, known, e, c) ↦
        let u =
          untouched files (sensitive_of repo (base_of base running)) running target
            (rw known at e) in
        inl (record { files = files; known = known; none_sensitive = u.0; same_proxy = u.1 })
    | inr (w, inl (d, found, c)) ↦
        let (l, m, e, p) = found_report target read d found in
        let r = matching_report l.report target (reruns_of target (newest_first read) l) p in
        inr (l, m, ap (λ g. g.report) c ∙ ap some (sym e), r.0, r.1, r.2, r.3)
    | inr (w, inr (missing, c)) ↦ absurd (false≢true (sym (ap (λ g. g.ok) c) ∙ h))
  ]

  -- The gate refuses only where no report that was read matches, and where the base is unknown or
  -- something cache-sensitive was touched; its result names what was touched.
  pub gate_refuses :
      (check repo target base running read).ok ≡ false
      → All
          (λ l. report_matches l.report target (reruns_of target (newest_first read) l) ≡ false)
          read
        × ((changed ≡ none) ⊎ (touched ≢ []))
        × ((check repo target base running read).touched ≡ touched)
  gate_refuses h = elim check-cases [
    | inl (files, known, e, c) ↦ absurd (false≢true (sym h ∙ ap (λ g. g.ok) c))
    | inr (w, inl (d, found, c)) ↦ absurd (false≢true (sym h ∙ ap (λ g. g.ok) c))
    | inr (w, inr (missing, c)) ↦ (none-matches target read missing, w, ap (λ g. g.touched) c)
  ]
