-- ===== src/Fifo/Line.antt =====
-- deploy/obs-transcription/gpu_lease_runner.py: the tickets of the directory, one behind the other.
use recursive_harness_builde.Prelude.{
  ℕ, suc, ◌<◌, ◌≡◌, refl, sym, subst, ◌⊎◌, inl, inr, String, Bool, List, [], ◌∷◌, ◌++◌, All,
  All-map, Bool-cases, arith, nat_eq, ◌==◌,
}
use recursive_harness_builde.Fifo.Directory.{
  Ticket, Directory, cleanup_stale, live_tickets, mark_failed, close_lock, drop_ticket,
}
use recursive_harness_builde.Fifo.Admission.{Trouble, create_ticket, inspect, withdraw}
use recursive_harness_builde.Fifo.Release.{Fault, Proof, release, reconcile}
use recursive_harness_builde.Fifo.Workers.{
  World, Step, Run, start, create, look, give_up, note_fails, leave, free, die, clear, stay, step,
  alive_in,
}
use recursive_harness_builde.Fifo.Queue.{
  All-live_tickets, All-drop_ticket, All-append, inspect-cases,
}
use recursive_harness_builde.Fifo.Order.{IsFair, Step-IsFair}

-- The tickets stand in the order in which they were drawn, each with a number of its own.
abbrev pub IsLine : List Ticket → Type 0
IsLine [] = Unit
IsLine (t ∷ ts) = All (λ u. t.number < u.number) ts × IsLine ts

live_tickets-IsLine :
    (alive : ℕ → Bool) (ts : List Ticket) → IsLine ts → IsLine (live_tickets alive ts)
unfolding live_tickets
live_tickets-IsLine alive [] l = tt
live_tickets-IsLine alive (t ∷ ts) l = elim (Bool-cases (alive t.process)) [
  | inl e ↦
      rw e
        (All-live_tickets (λ u. t.number < u.number) alive ts l.0, live_tickets-IsLine alive ts l.1)
  | inr e ↦ rw e (live_tickets-IsLine alive ts l.1)
]

drop_ticket-IsLine : (n : ℕ) (ts : List Ticket) → IsLine ts → IsLine (drop_ticket n ts)
unfolding drop_ticket
drop_ticket-IsLine n [] l = tt
drop_ticket-IsLine n (t ∷ ts) l = elim (Bool-cases (t.number == n)) [
  | inl e ↦ rw e (drop_ticket-IsLine n ts l.1)
  | inr e ↦ rw e (All-drop_ticket (λ u. t.number < u.number) n ts l.0, drop_ticket-IsLine n ts l.1)
]

append-IsLine :
    (t : Ticket) (ts : List Ticket)
    → IsLine ts
    → All (λ u. u.number < t.number) ts
    → IsLine (ts ++ t ∷ [])
append-IsLine t [] l h = (tt, tt)
append-IsLine t (u ∷ us) l h =
    (All-append (λ v. u.number < v.number) us (t ∷ []) l.0 (h.0, tt), append-IsLine t us l.1 h.1)

module _ (alive : ℕ → Bool) (d : Directory) where
  create_ticket-tickets :
      (job : String) (p : ℕ)
      → (let d' = (create_ticket alive job p d).0 in
          (d'.tickets ≡ d.tickets)
          ⊎ (d'.tickets
              ≡ live_tickets alive d.tickets
                ++ record { number = suc d.counter; job = job; process = p } ∷ []))
  unfolding create_ticket cleanup_stale
  create_ticket-tickets job p = ground arith

  inspect-tickets :
      (n : ℕ) (job : String) (p : ℕ)
      → (let d' = (inspect alive n job p d).0 in
          (d'.tickets ≡ d.tickets)
          ⊎ (d'.tickets ≡ live_tickets alive d.tickets)
          ⊎ (d'.tickets ≡ drop_ticket n (live_tickets alive d.tickets)))
  unfolding cleanup_stale
  inspect-tickets n job p = elim (inspect-cases alive n job p d) [
    | inl e ↦ rw e (inl refl)
    | inr (inl e) ↦ rw e (inr (inl refl))
    | inr (inr (inl e)) ↦ rw e (inr (inl refl))
    | inr (inr (inr (e, f, l))) ↦ rw e (inr (inr refl))
  ]

  withdraw-tickets :
      (e : Trouble) (n : ℕ) (job : String) (p : ℕ)
      → (let d' = withdraw e n job p d in
          (d'.tickets ≡ d.tickets) ⊎ (d'.tickets ≡ drop_ticket n d.tickets))
  unfolding withdraw mark_failed close_lock
  withdraw-tickets e n job p = ground arith

  release-tickets :
      (written closes : Bool) (n : ℕ) (job : String) (p : ℕ) (fault : Fault) (token : ℕ)
      → (release written closes n job p fault token d).0.tickets ≡ d.tickets
  unfolding release mark_failed close_lock
  release-tickets written closes n job p fault token = ground arith

  reconcile-tickets :
      (e : Proof) (job : String)
      → (let d' = (reconcile alive e job d).0 in
          (d'.tickets ≡ d.tickets) ⊎ (d'.tickets ≡ live_tickets alive d.tickets))
  unfolding reconcile cleanup_stale
  reconcile-tickets e job = ground arith

to_line : (ts us : List Ticket) → us ≡ ts → IsLine ts → IsLine us
to_line ts us e = subst IsLine (sym e)

Step-IsLine : (w w' : World) → Step w w' → IsFair w → IsLine w.dir.tickets → IsLine w'.dir.tickets
unfolding close_lock
Step-IsLine _ _ (start w job) f l = l
Step-IsLine _ _ (create w {a = a} _ _) f l =
    let alive = alive_in w.workers in
    elim (create_ticket-tickets alive w.dir a.job a.process) [
      | inl e ↦ to_line _ _ e l
      | inr e ↦ to_line _ _ e (
          append-IsLine (record { number = suc w.dir.counter; job = a.job; process = a.process })
            (live_tickets alive w.dir.tickets) (live_tickets-IsLine alive w.dir.tickets l)
            (All-live_tickets (λ u. u.number < suc w.dir.counter) alive w.dir.tickets
              (All-map _ (λ u. u.number < suc w.dir.counter) (λ u h. omega (arith, h.1))
                w.dir.tickets f.0.1)))
    ]
Step-IsLine _ _ (look w n {a = a} _ _) f l =
    let alive = alive_in w.workers in
    let live = live_tickets-IsLine alive w.dir.tickets l in
    elim (inspect-tickets alive w.dir n a.job a.process) [
      | inl e ↦ to_line _ _ e l
      | inr (inl e) ↦ to_line _ _ e live
      | inr (inr e) ↦ to_line _ _ e (drop_ticket-IsLine n (live_tickets alive w.dir.tickets) live)
    ]
Step-IsLine _ _ (give_up w n _ _) f l = l
Step-IsLine _ _ (note_fails w n _ _) f l = l
Step-IsLine _ _ (leave w n e {a = a} _ _) f l =
    elim (withdraw-tickets (alive_in w.workers) w.dir e n a.job a.process) [
      | inl e ↦ to_line _ _ e l
      | inr e ↦ to_line _ _ e (drop_ticket-IsLine n w.dir.tickets l)
    ]
Step-IsLine _ _ (free w n written closes fault token {a = a} _ _) f l =
    to_line _ _
      (release-tickets (alive_in w.workers) w.dir written closes n a.job a.process fault token) l
Step-IsLine _ _ (die w {a = a} _) f l = l
Step-IsLine _ _ (clear w e job) f l = elim (reconcile-tickets (alive_in w.workers) w.dir e job) [
  | inl e ↦ to_line _ _ e l
  | inr e ↦ to_line _ _ e (live_tickets-IsLine (alive_in w.workers) w.dir.tickets l)
]

pub Run-IsLine :
    (w w' : World) → Run w w' → IsFair w → IsLine w.dir.tickets → IsFair w' × IsLine w'.dir.tickets
Run-IsLine _ _ (stay w) f l = (f, l)
Run-IsLine u w (step {v = v} r s) f l =
    let (g, k) = Run-IsLine u v r f l in (Step-IsFair v w s g, Step-IsLine v w s g k)
