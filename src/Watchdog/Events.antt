-- ===== src/Watchdog/Events.antt =====
-- src/obs_agent/spark_watchdog.py: kernel events of the ranks are judged once each.
use recursive_harness_builde.Prelude.{
  ℕ, ◌+◌, ◌-◌, ◌≤◌, ◌<◌, ◌≡◌, refl, String, none, some, true, List, [], ◌∷◌, ◌++◌, arith, lookup,
  insert, lookup-insert, ==_refl, string_eq, nat_eq, ltb, inl, inr, Bool-cases, ◌∙◌, ◌==◌,
}
use recursive_harness_builde.Watchdog.Detector.{
  Detector, Health, History, recycle, crashloop, crashloop_window, observe, judge_loop,
  judge_health, judge_xid, judge_oom, is_looping, last,
}
use recursive_harness_builde.Watchdog.Ranks.{history_of, note_oom, trim, note_restarts}

insert_some :
    {A : Type 0} (k : String) (a : A) (xs : List (String × A))
    → (e : String × A) × (rest : List (String × A)) × (insert k a xs ≡ e ∷ rest)
unfolding insert
insert_some k a [] = ((k, a), [], refl)
insert_some k a ((j, b) ∷ xs) = elim (Bool-cases (j == k)) [
  | inl e ↦ ((j, a), xs, rw e)
  | inr e ↦ ((j, b), insert k a xs, rw e)
]

-- A probe that finds more out-of-memory kills than the last one on its host raises an alarm, and the
-- next ok poll of `/health`, with no crash loop and no hardware fault, asks for a recycle and clears
-- all such alarms. The same count found again then raises none.
pub oom_judged_once :
    (host : String) (base n now : ℕ) (h : Health) (d : Detector)
    → lookup host d.oom_base ≡ some base
    → base < n
    → crashloop d.rank_history ≡ none
    → d.new_hw_xid ≡ []
    → h.ok ≡ true
    → ((observe now (some h) none (note_oom host (some n) d)).1.state ≡ recycle)
      × ((observe now (some h) none (note_oom host (some n) d)).0.new_oom ≡ [])
      × ((note_oom host (some n) (observe now (some h) none (note_oom host (some n) d)).0).new_oom
          ≡ [])
unfolding observe judge_loop judge_health judge_xid judge_oom note_oom
oom_judged_once host base n now h d b more l x o = ground (
  arith,
  lookup-insert host host n d.oom_base,
  ==_refl host,
  insert_some host (n - base) d.new_oom,
)

trim_snoc :
    (now n : ℕ) (h : History)
    → (h' : History) × (trim now (h ++ (now, n) ∷ []) ≡ h' ++ (now, n) ∷ [])
unfolding trim
trim_snoc now n [] = ([], ground arith)
trim_snoc now n (e ∷ h) = elim (Bool-cases (ltb (e.0 + crashloop_window) now)) [
  | inl old ↦ let (h', p) = trim_snoc now n h in (h', rw (old, trim) p)
  | inr kept ↦ (e ∷ h, rw (kept, trim))
]

trim_head :
    (now : ℕ) (h : History) (e : ℕ × ℕ) (rest : History)
    → trim now h ≡ e ∷ rest
    → now ≤ e.0 + crashloop_window
unfolding trim
trim_head now [] e rest p = cc
trim_head now (f ∷ h) e rest p = ground (arith, trim_head now h e rest)

last-snoc : (e x : ℕ × ℕ) (h : History) → last e (h ++ x ∷ []) ≡ x
last-snoc e x [] = refl
last-snoc e x (f ∷ h) = last-snoc f x h

looping_growth :
    (x : ℕ × ℕ) (h : History)
    → is_looping (h ++ x ∷ []) ≡ true
    → (e : ℕ × ℕ) × (rest : History) × (h ++ x ∷ [] ≡ e ∷ rest) × (e.1 + 2 ≤ x.1)
looping_growth x [] p = cc
looping_growth x (e ∷ []) p = (e, x ∷ [], refl, ground arith)
looping_growth x (e ∷ f ∷ h) p = (e, f ∷ h ++ x ∷ [], refl, ground (arith, last-snoc f x h))

-- A host counts as crash-looping after a probe that reads `n` restarts only if some earlier probe,
-- at most `crashloop_window` before this one, read at least two fewer.
pub crashloop_recent :
    (now n : ℕ) (host : String) (d : Detector) (h : History)
    → lookup host (note_restarts now host (some n) d).rank_history ≡ some h
    → is_looping h ≡ true
    → (e : ℕ × ℕ) × (rest : History) × (h ≡ e ∷ rest)
      × (now ≤ e.0 + crashloop_window)
      × (e.1 + 2 ≤ n)
unfolding note_restarts
crashloop_recent now n host d h found loops =
    let old = history_of (lookup host d.rank_history) in
    let (h', p) = trim_snoc now n old in
    let kept : h ≡ h' ++ (now, n) ∷ [] = ground (
      arith,
      lookup-insert host host (trim now (old ++ (now, n) ∷ [])) d.rank_history,
      ==_refl host,
    ) in
    let (e, rest, q, grown) = looping_growth (now, n) h' (rw kept at loops) in
    (e, rest, kept ∙ q, trim_head now (old ++ (now, n) ∷ []) e rest (p ∙ q), grown)
