-- ===== src/Watchdog/Backoff.antt =====
-- src/obs_agent/spark_watchdog.py: how often the pair is restarted.
use recursive_harness_builde.Prelude.{
  ℕ, zero, suc, ◌+◌, ◌^◌, ◌≤◌, ◌≡◌, Bool, true, false, List, [], ◌∷◌, length, arith, List-cases,
  inl, inr, ◌⊎◌, leb, Option, String, ◌<◌, ◌++◌, All, Bool-cases, ltb, refl, ap, subst, sym,
}
use native.Mathlib.Nat.{pow-suc}
use recursive_harness_builde.Watchdog.Detector.{Detector, Health, Verdict, observe}
use recursive_harness_builde.Watchdog.Loop.{
  Restart, restart, recent, last_t, gap, must_wait, decide_restart, needs_restart, recent_window,
  Decision, publish, hold_off, Watch, last_20, after_decision, round,
}

pow_pos : (n : ℕ) → 1 ≤ 2 ^ n
pow_pos zero = omega arith
pow_pos (suc n) = omega (arith, pow-suc 2 n, pow_pos n)

-- The gap doubles from ten minutes, and stops at an hour.
gap_bounds :
    (n : ℕ)
    → (600_000 ≤ gap (suc n))
      × (gap (suc n) ≤ 3_600_000)
      × (gap (suc (suc (suc (suc n)))) ≡ 3_600_000)
      × (gap (suc n) ≤ gap (suc (suc n)))
unfolding gap
gap_bounds n = (
  omega (arith, pow_pos n),
  omega arith,
  omega (arith, pow-suc 2 n, pow-suc 2 (suc n), pow-suc 2 (suc (suc n)), pow_pos n),
  omega (arith, pow-suc 2 n),
)

long_gap : (n : ℕ) → 4 ≤ n → 3_600_000 ≤ gap n
long_gap zero h = absurd (omega arith)
long_gap (suc zero) h = absurd (omega arith)
long_gap (suc (suc zero)) h = absurd (omega arith)
long_gap (suc (suc (suc zero))) h = absurd (omega arith)
long_gap (suc (suc (suc (suc n)))) h = omega (arith, (gap_bounds n).2)

waited :
    (now : ℕ) (r : Restart) (rs : List Restart)
    → must_wait now (r ∷ rs) ≡ false
    → (last_t r rs + 600_000 ≤ now) × (4 ≤ length (r ∷ rs) → last_t r rs + 3_600_000 ≤ now)
waited now r rs h = (
  omega (arith, after, (gap_bounds (length rs)).0),
  λ many. omega (arith, after, long_gap (length (r ∷ rs)) many),
)
  where
    after : last_t r rs + gap (length (r ∷ rs)) ≤ now
    after = unfold must_wait in ground arith

-- The restarts stand in the order of their times, as rounds append them.
abbrev pub IsInOrder : List Restart → Type 0
IsInOrder [] = Unit
IsInOrder (r ∷ rs) = All (λ s. r.t ≤ s.t) rs × IsInOrder rs

-- Six hours and more ago.
abbrev pub IsPast : ℕ → Restart → Type 0
IsPast now r = r.t + 21_600_000 ≤ now

abbrev pub IsYoung : ℕ → Restart → Type 0
IsYoung now r = now < r.t + 21_600_000

-- At least `n` milliseconds ago.
abbrev pub IsAgo : ℕ → ℕ → Restart → Type 0
IsAgo n now r = r.t + n ≤ now

recent-IsYoung :
    (now a : ℕ) (rs : List Restart)
    → All (λ s. a ≤ s.t) rs
    → now < a + 21_600_000
    → (recent now rs ≡ rs) × All (IsYoung now) rs
unfolding recent
recent-IsYoung now a [] h y = (refl, tt)
recent-IsYoung now a (r ∷ rs) h y =
    let (e, k) = recent-IsYoung now a rs h.1 y in
    let young : IsYoung now r = omega (arith, y, h.0) in (ground (arith, e, young), (young, k))

-- The past restarts come first, and `recent` keeps the others.
recent-split :
    (now : ℕ) (rs : List Restart)
    → IsInOrder rs
    → (old : List Restart) × (rs ≡ old ++ recent now rs)
      × All (IsPast now) old
      × All (IsYoung now) (recent now rs)
      × IsInOrder (recent now rs)
unfolding recent
recent-split now [] o = ([], refl, tt, tt, tt)
recent-split now (r ∷ rs) o = elim (Bool-cases (ltb now (r.t + recent_window))) [
  | inl e ↦
      let young : IsYoung now r = ground (arith, e) in
      let (same, k) = recent-IsYoung now r.t rs o.0 young in
      rw (e, same) ([], refl, tt, (young, k), o)
  | inr e ↦
      let (old, same, past, k, q) = recent-split now rs o.1 in
      rw e (r ∷ old, ap (◌∷◌ r) same, (ground (arith, e), past), k, q)
]

last_t-latest :
    (now n : ℕ) (r : Restart) (rs : List Restart)
    → IsInOrder (r ∷ rs)
    → last_t r rs + n ≤ now
    → All (IsAgo n now) (r ∷ rs)
last_t-latest now n r [] o h = (h, tt)
last_t-latest now n r (s ∷ rs) o h =
    let rest = last_t-latest now n s rs o.1 h in (omega (arith, rest.0, o.0.0), rest)

IsAgo-All :
    (now : ℕ) (rs : List Restart)
    → IsInOrder rs
    → (rs ≡ [])
      ⊎ ((r : Restart) × (qs : List Restart) × (rs ≡ r ∷ qs) × (must_wait now (r ∷ qs) ≡ false))
    → All (IsAgo 600_000 now) rs × (4 ≤ length rs → All (IsAgo 3_600_000 now) rs)
IsAgo-All now [] o h = (tt, λ many. tt)
IsAgo-All now (r ∷ rs) o (inl e) = absurd (cc e)
IsAgo-All now (r ∷ rs) o (inr (q, qs, e, m)) =
    let (short, long) = waited now r rs (subst (λ x. must_wait now x ≡ false) (sym e) m) in
    (last_t-latest now 600_000 r rs o short, λ many. last_t-latest now 3_600_000 r rs o (long many))

-- Where the restarts stand in the order of their times, a round restarts only on a verdict that asks
-- for it and where restarts are allowed, and every restart of the last six hours is at least ten
-- minutes ago; where these are four or more, each of them is at least an hour ago.
pub restart_spacing :
    (now : ℕ) (act : Bool) (restarts : List Restart) (v : Verdict)
    → IsInOrder restarts
    → decide_restart now act restarts v ≡ restart
    → (needs_restart v.state ≡ true)
      × (act ≡ true)
      × ((old young : List Restart) × (restarts ≡ old ++ young)
          × All (IsPast now) old
          × All (IsYoung now) young
          × All (IsAgo 600_000 now) young
          × (4 ≤ length young → All (IsAgo 3_600_000 now) young))
unfolding decide_restart
restart_spacing now act restarts v o h =
    let (old, same, past, young, q) = recent-split now restarts o in
    let (short, long) = IsAgo-All now (recent now restarts) q free in
    (
      ground (arith, h),
      ground (arith, h),
      (old, recent now restarts, same, past, young, short, long),
    )
  where
    free :
        (recent now restarts ≡ [])
        ⊎ ((r : Restart) × (qs : List Restart) × (recent now restarts ≡ r ∷ qs)
            × (must_wait now (r ∷ qs) ≡ false))
    free = elim (List-cases (recent now restarts)) [
      | inl e ↦ inl e
      | inr (r, rs, e) ↦ inr (r, rs, e, ground (arith, h, e))
    ]

snoc-IsInOrder :
    (r : Restart) (rs : List Restart)
    → IsInOrder rs
    → All (λ s. s.t ≤ r.t) rs
    → IsInOrder (rs ++ r ∷ [])
snoc-IsInOrder r [] o h = (tt, tt)
snoc-IsInOrder r (s ∷ rs) o h = (above rs o.0, snoc-IsInOrder r rs o.1 h.1)
  where
    above : (qs : List Restart) → All (λ q. s.t ≤ q.t) qs → All (λ q. s.t ≤ q.t) (qs ++ r ∷ [])
    above [] k = (h.0, tt)
    above (q ∷ qs) k = (k.0, above qs k.1)

last_20-IsInOrder : (rs : List Restart) → IsInOrder rs → IsInOrder (last_20 rs)
unfolding last_20
last_20-IsInOrder [] o = tt
last_20-IsInOrder (r ∷ rs) o = elim (Bool-cases (leb (length (r ∷ rs)) 20)) [
  | inl e ↦ rw e o
  | inr e ↦ rw e (last_20-IsInOrder rs o.1)
]

recent-All : (P : Restart → Type 0) (now : ℕ) (rs : List Restart) → All P rs → All P (recent now rs)
unfolding recent
recent-All P now [] h = tt
recent-All P now (r ∷ rs) h = elim (Bool-cases (ltb now (r.t + recent_window))) [
  | inl e ↦ rw e (h.0, recent-All P now rs h.1)
  | inr e ↦ rw e (recent-All P now rs h.1)
]

after_decision-IsInOrder :
    (now finished : ℕ) (ok : Bool) (decision : Decision) (d : Detector) (w : Watch)
    → IsInOrder w.restarts
    → All (λ r. r.t ≤ finished) w.restarts
    → IsInOrder (after_decision now finished ok decision d w).restarts
unfolding after_decision
after_decision-IsInOrder now finished ok (publish v) d w o h = o
after_decision-IsInOrder now finished ok (hold_off t) d w o h = o
after_decision-IsInOrder now finished ok restart d w o h =
    let (_, _, _, _, q) = recent-split now w.restarts o in
    last_20-IsInOrder (recent now w.restarts ++ record { t = finished; ok = ok } ∷ []) (
      snoc-IsInOrder (record { t = finished; ok = ok }) (recent now w.restarts) q
        (recent-All (λ r. r.t ≤ finished) now w.restarts h))

-- A round keeps the restarts in the order of their times, where none of them is later than its end.
round-IsInOrder :
    (now : ℕ) (health : Option Health) (maintenance : Option String) (act : Bool) (finished : ℕ)
    (ok : Bool) (w : Watch)
    → IsInOrder w.restarts
    → All (λ r. r.t ≤ finished) w.restarts
    → IsInOrder (round now health maintenance act finished ok w).restarts
unfolding round
round-IsInOrder now health maintenance act finished ok w =
    let (d, v) = observe now health maintenance w.detector in
    after_decision-IsInOrder now finished ok (decide_restart now act w.restarts v) d w
