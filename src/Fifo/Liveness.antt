-- ===== src/Fifo/Liveness.antt =====
-- deploy/obs-transcription/gpu_lease_runner.py: a queue whose workers all look and release comes to its
-- end, whatever the dead have left behind.
use recursive_harness_builde.Prelude.{
  ℕ, ◌<◌, ◌≡◌, refl, ap, ◌∙◌, inl, inr, none, some, Bool, true, false, ◌&&◌, List, [], ◌∷◌, All,
  Bool-cases, arith, ==_refl, ==_iff, nat_eq, string_eq, if◌then◌else◌,
}
use recursive_harness_builde.Fifo.Directory.{
  Ticket, Directory, is_blocked, cleanup_stale, live_tickets, close_lock, least_ticket, front,
  drop_ticket,
}
use recursive_harness_builde.Fifo.Admission.{Seen, raised, waits, admitted, inspect}
use recursive_harness_builde.Fifo.Release.{release, undisturbed}
use recursive_harness_builde.Fifo.Workers.{World, Run, alive_in}
use recursive_harness_builde.Fifo.Order.{IsFair}
use recursive_harness_builde.Fifo.Line.{IsLine, Run-IsLine}
use recursive_harness_builde.Fifo.Blocking.{front_admitted}

-- The tickets whose workers live.
abbrev pub line_of_live : (ℕ → Bool) → List Ticket → List Ticket
line_of_live alive [] = []
line_of_live alive (t ∷ ts) =
    if alive t.process then t ∷ line_of_live alive ts else line_of_live alive ts

abbrev pub gets_in : Seen → Bool
gets_in admitted = true
gets_in raised = false
gets_in waits = false

-- The workers of these tickets in turn: each looks once, and then releases with the guard `token`.
-- The Boolean says that each one was admitted and released without an error.
abbrev pub serve : (ℕ → Bool) → ℕ → List Ticket → Directory → Directory × Bool
serve alive token [] d = (d, true)
serve alive token (t ∷ ts) d =
    let (d1, seen) = inspect alive t.number t.job t.process d in
    let (d2, returns) = release true true t.number t.job t.process undisturbed token d1 in
    let (d3, rest) = serve alive token ts d2 in (d3, gets_in seen && returns && rest)

least_ticket-IsLine : (t : Ticket) (ts : List Ticket) → IsLine (t ∷ ts) → least_ticket t ts ≡ t
unfolding least_ticket
least_ticket-IsLine t [] l = refl
least_ticket-IsLine t (u ∷ us) l = ground (arith, l.0.0, least_ticket-IsLine t us (l.0.1, l.1.1))

drop_ticket-none : (n : ℕ) (ts : List Ticket) → All (λ u. n < u.number) ts → drop_ticket n ts ≡ ts
unfolding drop_ticket
drop_ticket-none n [] h = refl
drop_ticket-none n (t ∷ ts) h = ground (arith, h.0, ==_iff t.number n, drop_ticket-none n ts h.1)

drop_ticket-first :
    (t : Ticket) (ts : List Ticket) → IsLine (t ∷ ts) → drop_ticket t.number (t ∷ ts) ≡ ts
unfolding drop_ticket
drop_ticket-first t ts l = ground (arith, ==_refl t.number, drop_ticket-none t.number ts l.0)

live_tickets-line :
    (alive : ℕ → Bool) (ts : List Ticket) → live_tickets alive ts ≡ line_of_live alive ts
unfolding live_tickets
live_tickets-line alive [] = refl
live_tickets-line alive (t ∷ ts) = ground (arith, live_tickets-line alive ts)

module _ (alive : ℕ → Bool) where
  line_of_live-All :
      (P : Ticket → Type 0) (ts : List Ticket) → All P ts → All P (line_of_live alive ts)
  line_of_live-All P [] h = tt
  line_of_live-All P (t ∷ ts) h = elim (Bool-cases (alive t.process)) [
    | inl e ↦ rw e (h.0, line_of_live-All P ts h.1)
    | inr e ↦ rw e (line_of_live-All P ts h.1)
  ]

  line_of_live-IsLine : (ts : List Ticket) → IsLine ts → IsLine (line_of_live alive ts)
  line_of_live-IsLine [] l = tt
  line_of_live-IsLine (t ∷ ts) l = elim (Bool-cases (alive t.process)) [
    | inl e ↦ rw e (line_of_live-All (λ u. t.number < u.number) ts l.0, line_of_live-IsLine ts l.1)
    | inr e ↦ rw e (line_of_live-IsLine ts l.1)
  ]

  line_of_live-alive :
      (ts : List Ticket) → All (λ t. alive t.process ≡ true) (line_of_live alive ts)
  line_of_live-alive [] = tt
  line_of_live-alive (t ∷ ts) = elim (Bool-cases (alive t.process)) [
    | inl e ↦ rw e (e, line_of_live-alive ts)
    | inr e ↦ rw e (line_of_live-alive ts)
  ]

  line_of_live-same :
      (ts : List Ticket) → All (λ t. alive t.process ≡ true) ts → line_of_live alive ts ≡ ts
  line_of_live-same [] h = refl
  line_of_live-same (t ∷ ts) h = rw (h.0) (ap (◌∷◌ t) (line_of_live-same ts h.1))

  line_of_live-none :
      (ts : List Ticket) → line_of_live alive ts ≡ [] → All (λ t. alive t.process ≡ false) ts
  line_of_live-none [] h = tt
  line_of_live-none (t ∷ ts) h = elim (Bool-cases (alive t.process)) [
    | inl e ↦ absurd (cc (rw e at h))
    | inr e ↦ (e, line_of_live-none ts (rw e at h))
  ]

  -- The worker in front is admitted.
  look_in_front :
      (t : Ticket) (ts : List Ticket) (d : Directory)
      → is_blocked d ≡ false
      → d.lock ≡ none
      → IsLine (t ∷ ts)
      → line_of_live alive d.tickets ≡ t ∷ ts
      → inspect alive t.number t.job t.process d
        ≡ (record d { tickets = ts; owner = some t; lock = some t.process }, admitted)
  unfolding cleanup_stale
  look_in_front t ts d b l q e =
      let live : live_tickets alive d.tickets ≡ t ∷ ts = live_tickets-line alive d.tickets ∙ e in
      let least : front (live_tickets alive d.tickets) ≡ some t =
        ap front live ∙ ap some (least_ticket-IsLine t ts q) in
      let left : drop_ticket t.number (live_tickets alive d.tickets) ≡ ts =
        ap (drop_ticket t.number) live ∙ drop_ticket-first t ts q in
      front_admitted alive t.job t.process d t b l least
      ∙ ap (λ us. (record d { tickets = us; owner = some t; lock = some t.process }, admitted)) left

  -- The release of the worker that was let in.
  release_after :
      (token : ℕ) (t : Ticket) (ts : List Ticket) (d : Directory)
      → is_blocked d ≡ false
      → release true true t.number t.job t.process undisturbed token
          (record d { tickets = ts; owner = some t; lock = some t.process })
        ≡ (record d { tickets = ts; owner = none; lock = none }, true)
  unfolding release is_blocked close_lock
  release_after token t ts d b =
      ground (arith, b, ==_refl t.number, ==_refl t.job, ==_refl t.process)

  abbrev IsServed : ℕ → Directory → List Ticket → Type 0
  IsServed token d ts =
      let (d', done) = serve alive token ts d in
      (done ≡ true)
      × (line_of_live alive d'.tickets ≡ [])
      × (d'.lock ≡ none)
      × (is_blocked d' ≡ false)
      × (d'.counter ≡ d.counter)

  serve-All :
      (token : ℕ) (ts : List Ticket) (d : Directory)
      → is_blocked d ≡ false
      → d.lock ≡ none
      → IsLine ts
      → All (λ t. alive t.process ≡ true) ts
      → line_of_live alive d.tickets ≡ ts
      → IsServed token d ts
  serve-All token [] d b l q a e = (refl, e, l, b, refl)
  serve-All token (t ∷ ts) d b l q a e =
      let rest =
        serve-All token ts (record d { tickets = ts; owner = none; lock = none })
          (unfold is_blocked in b) refl q.1 a.1 (line_of_live-same ts a.1) in
      rw (look_in_front t ts d b l q e, release_after token t ts d b) rest

-- Every worker gets its turn: in every run from a fair world with its tickets in line, where nothing
-- blocks the directory and the lock is free, let the workers that live look one after the other, in the
-- order of their tickets, and each release undisturbed before the next one looks. Then each look is an
-- admission, no release ends with an error, and at the end no ticket of a live worker is left, the lock
-- is free and nothing blocks the directory.
pub queue_served :
    (w w' : World)
    → Run w w'
    → IsFair w
    → IsLine w.dir.tickets
    → is_blocked w'.dir ≡ false
    → w'.dir.lock ≡ none
    → (token : ℕ)
    → (let alive = alive_in w'.workers in
        let (d, done) = serve alive token (line_of_live alive w'.dir.tickets) w'.dir in
        (done ≡ true)
        × All (λ t. alive t.process ≡ false) d.tickets
        × (d.lock ≡ none)
        × (is_blocked d ≡ false)
        × (d.counter ≡ w'.dir.counter))
queue_served w w' r f q b l token =
    let alive = alive_in w'.workers in
    let line : IsLine w'.dir.tickets = (Run-IsLine w w' r f q).1 in
    let (done, none_left, free, unblocked, same) =
      serve-All alive token (line_of_live alive w'.dir.tickets) w'.dir b l
        (line_of_live-IsLine alive w'.dir.tickets line) (line_of_live-alive alive w'.dir.tickets)
        refl in
    (done, line_of_live-none alive _ none_left, free, unblocked, same)
