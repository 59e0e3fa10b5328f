-- ===== src/Watchdog/Liveness.antt =====
-- src/obs_agent/spark_watchdog.py: what the detector's verdicts mean, over sequences of polls.
use recursive_harness_builde.Prelude.{
  ℕ, ◌+◌, ◌≤◌, ◌≡◌, refl, Option, none, some, Bool, true, false, List, [], ◌∷◌, All, arith, leb,
  inl, inr, ◌⊎◌, String, not, ◌∙◌, ◌↔◌,
}
use recursive_harness_builde.Watchdog.Detector.{
  Detector, Health, Vector, healthy, wedged, down, progress_vector, vector_eq, is_idle, mem_recycle,
  least, poll, crashloop, observe, judge_loop, judge_health, judge_down, judge_xid, judge_oom,
  judge_memory, judge_progress,
}

pub vector_eq_refl : (v : Vector) → vector_eq v v ≡ true
unfolding vector_eq
vector_eq_refl [] = refl
vector_eq_refl (none ∷ v) = vector_eq_refl v
vector_eq_refl (some n ∷ v) = ground (arith, vector_eq_refl v)

abbrev is_roomy : List (String × ℕ) → Bool
is_roomy [] = true
is_roomy (e ∷ rest) = leb mem_recycle (least e rest).1

-- No rank restarts over and over, no new kernel event is pending, and no host is low on memory.
pub record IsQuiet (d : Detector) : Type 0 where
  pub no_loop : crashloop d.rank_history ≡ none
  pub no_xid : d.new_hw_xid ≡ []
  pub no_oom : d.new_oom ≡ []
  pub roomy : is_roomy d.mem ≡ true

-- The detector after some polls of `/health`, with no probe of the ranks between.
unfoldable pub watch : List (ℕ × Option Health) → Detector → Detector
watch [] d = d
watch ((now, h) ∷ polls) d = watch polls (observe now h none d).0

-- A `/health` that is ok, with requests running, and with the counters at `v`.
abbrev pub IsStuckHealth : Vector → Option Health → Type 0
IsStuckHealth v none = ⊥
IsStuckHealth v (some h) =
    (h.ok ≡ true) × (progress_vector h ≡ v) × (is_idle h.requests_running ≡ false)

abbrev pub IsStuck : Vector → ℕ × Option Health → Type 0
IsStuck v poll = IsStuckHealth v poll.1

-- The counters stood at `v` when they last moved, at `since`.
pub record IsWatching (v : Vector) (since : ℕ) (d : Detector) : Type 0 where
  pub quiet : IsQuiet d
  pub vector : d.vector ≡ some v
  pub since_at : d.progress_at ≡ some since

judge_memory_roomy :
    (now : ℕ) (h : Health) (d : Detector) (m : List (String × ℕ))
    → is_roomy m ≡ true
    → judge_memory now h d m ≡ judge_progress now h d
unfolding judge_memory
judge_memory_roomy now h d [] r = refl
judge_memory_roomy now h d (e ∷ rest) r = ground arith

observe_quiet :
    (now : ℕ) (h : Health) (d : Detector)
    → IsQuiet d
    → h.ok ≡ true
    → observe now (some h) none d ≡ judge_progress now h (record d { down_since = none })
unfolding observe judge_loop judge_health judge_xid judge_oom
observe_quiet now h d q o =
    ground (arith, judge_memory_roomy now h (record d { down_since = none }) d.mem)

stuck_step :
    (v : Vector) (since now : ℕ) (o : Option Health) (d : Detector)
    → IsWatching v since d
    → IsStuckHealth v o
    → IsWatching v since (observe now o none d).0
      × ((observe now o none d).0.stall_ms ≡ d.stall_ms)
      × ((observe now o none d).1.state ≡ wedged → since + d.stall_ms ≤ now)
      × (since + d.stall_ms ≤ now → (observe now o none d).1.state ≡ wedged)
stuck_step v since now none d w k = absurd k
stuck_step v since now (some h) d w k =
    rw (observe_quiet now h d w.quiet k.0)
      (unfold judge_progress in ground (arith, vector_eq_refl v))

watch-IsWatching :
    (v : Vector) (since : ℕ) (polls : List (ℕ × Option Health)) (d : Detector)
    → IsWatching v since d
    → All (IsStuck v) polls
    → IsWatching v since (watch polls d) × ((watch polls d).stall_ms ≡ d.stall_ms)
unfolding watch
watch-IsWatching v since [] d w k = (w, refl)
watch-IsWatching v since ((now, o) ∷ polls) d w k =
    let s = stuck_step v since now o d w k.0 in
    let r = watch-IsWatching v since polls (observe now o none d).0 s.0 k.1 in (r.0, r.1 ∙ s.1)

-- However often `/health` is polled while requests run and no counter moves, on a pair with no other
-- sign of trouble, the next such poll is judged wedged exactly when `stall_ms` have passed since the
-- counters last moved, though `/health` says ok each time.
pub wedged_iff_stalled :
    (v : Vector) (since : ℕ) (polls : List (ℕ × Option Health)) (d : Detector)
    → IsWatching v since d
    → All (IsStuck v) polls
    → (now : ℕ) (o : Option Health) → IsStuckHealth v o
    → ((observe now o none (watch polls d)).1.state ≡ wedged) ↔ (since + d.stall_ms ≤ now)
wedged_iff_stalled v since polls d w k now o h =
    let r = watch-IsWatching v since polls d w k in
    let s = stuck_step v since now o (watch polls d) r.0 h in
    (λ e. omega (arith, s.2 e, r.1), λ e. s.3 (omega (arith, r.1)))

-- A poll that finds the counters moved, or no request running, on a pair with no other sign of
-- trouble is judged healthy, and the wait for progress starts anew at it.
progress_restarts_wait :
    (now : ℕ) (h : Health) (v : Vector) (d : Detector)
    → IsQuiet d
    → h.ok ≡ true
    → d.vector ≡ some v
    → (vector_eq (progress_vector h) v ≡ false) ⊎ (is_idle h.requests_running ≡ true)
    → ((observe now (some h) none d).1.state ≡ healthy)
      × IsWatching (progress_vector h) now (observe now (some h) none d).0
progress_restarts_wait now h v d q o e m =
    rw (observe_quiet now h d q o) (unfold judge_progress in ground arith)

-- `/health` is not reachable, or not ok.
abbrev pub is_gone : Option Health → Bool
is_gone none = true
is_gone (some h) = not h.ok

abbrev pub IsGone : ℕ × Option Health → Type 0
IsGone poll = is_gone poll.1 ≡ true

record IsWaiting (since : ℕ) (d : Detector) : Type 0 where
  no_loop : crashloop d.rank_history ≡ none
  since_at : d.down_since ≡ some since

gone_step :
    (since now : ℕ) (o : Option Health) (d : Detector)
    → crashloop d.rank_history ≡ none
    → (d.down_since ≡ some since) ⊎ ((d.down_since ≡ none) × (now ≡ since))
    → is_gone o ≡ true
    → IsWaiting since (observe now o none d).0
      × ((observe now o none d).0.down_ms ≡ d.down_ms)
      × ((observe now o none d).1.state ≡ down → since + d.down_ms ≤ now)
      × (since + d.down_ms ≤ now → (observe now o none d).1.state ≡ down)
unfolding observe judge_loop judge_health judge_down
gone_step since now none d n w g = ground arith
gone_step since now (some h) d n w g = ground arith

watch-IsWaiting :
    (since : ℕ) (polls : List (ℕ × Option Health)) (d : Detector)
    → IsWaiting since d
    → All IsGone polls
    → IsWaiting since (watch polls d) × ((watch polls d).down_ms ≡ d.down_ms)
unfolding watch
watch-IsWaiting since [] d w k = (w, refl)
watch-IsWaiting since ((now, o) ∷ polls) d w k =
    let s = gone_step since now o d w.no_loop (inl w.since_at) k.0 in
    let r = watch-IsWaiting since polls (observe now o none d).0 s.0 k.1 in (r.0, r.1 ∙ s.1)

-- From the first poll at which `/health` is gone, with no crash loop known, it is suspect until
-- `down_ms` have passed without an ok answer, and down from then on.
pub down_iff_gone :
    (since : ℕ) (first : Option Health) (polls : List (ℕ × Option Health)) (d : Detector)
    → crashloop d.rank_history ≡ none
    → d.down_since ≡ none
    → is_gone first ≡ true
    → All IsGone polls
    → (now : ℕ) (o : Option Health) → is_gone o ≡ true
    → ((observe now o none (watch ((since, first) ∷ polls) d)).1.state ≡ down)
      ↔ (since + d.down_ms ≤ now)
unfolding watch
down_iff_gone since first polls d n u f k now o g =
    let a = gone_step since since first d n (inr (u, refl)) f in
    let r = watch-IsWaiting since polls (observe since first none d).0 a.0 k in
    let s = gone_step since now o _ r.0.no_loop (inl r.0.since_at) g in
    (λ e. omega (arith, s.2 e, r.1, a.1), λ e. s.3 (omega (arith, r.1, a.1)))
