-- ===== src/Fifo/Queue.antt =====
-- deploy/obs-transcription/gpu_lease_runner.py: what each critical section does to the tickets and to
-- the counter.
use recursive_harness_builde.Prelude.{
  ℕ, ◌≡◌, sym, subst, ◌≤◌, ◌<◌, String, none, Bool, true, List, [], ◌∷◌, ◌++◌, All, All-map,
  All-both, Bool-cases, Option-cases, inl, inr, ◌⊎◌, refl, arith, ltb, ==_iff, ◌==◌, nat_eq,
  if◌then◌else◌,
}
use recursive_harness_builde.Fifo.Directory.{
  Ticket, Directory, is_blocked, live_tickets, cleanup_stale, least_ticket, front, has_ticket,
  drop_ticket, mark_failed, close_lock,
}
use recursive_harness_builde.Fifo.Admission.{
  raised, waits, admitted, Trouble, create_ticket, inspect, withdraw, is_front, admit_first,
}
use recursive_harness_builde.Fifo.Workers.{recorded}
use recursive_harness_builde.Fifo.Release.{Fault, Proof, release, reconcile}

-- The ticket that was admitted last, if any, and 0 before: the tickets begin with 1.
abbrev pub top : List ℕ → ℕ
top [] = 0
top (n ∷ ns) = n

abbrev pub IsOrdered : List ℕ → Type 0
IsOrdered [] = Unit
IsOrdered (n ∷ ns) = (top ns < n) × IsOrdered ns

abbrev pub IsFenced : ℕ → ℕ → Ticket → Type 0
IsFenced high counter t = (high < t.number) × (t.number ≤ counter)

-- The waiting tickets lie above the one that was admitted last.
abbrev pub IsQueue : ℕ → Directory → Type 0
IsQueue high d = (high ≤ d.counter) × All (IsFenced high d.counter) d.tickets

module _ (P : Ticket → Type 0) where
  pub All-live_tickets :
      (alive : ℕ → Bool) (ts : List Ticket) → All P ts → All P (live_tickets alive ts)
  unfolding live_tickets
  All-live_tickets alive [] h = tt
  All-live_tickets alive (t ∷ ts) h = elim (Bool-cases (alive t.process)) [
    | inl b ↦ rw b (h.0, All-live_tickets alive ts h.1)
    | inr b ↦ rw b (All-live_tickets alive ts h.1)
  ]

  pub All-drop_ticket : (n : ℕ) (ts : List Ticket) → All P ts → All P (drop_ticket n ts)
  unfolding drop_ticket
  All-drop_ticket n [] h = tt
  All-drop_ticket n (t ∷ ts) h = elim (Bool-cases (t.number == n)) [
    | inl b ↦ rw b (All-drop_ticket n ts h.1)
    | inr b ↦ rw b (h.0, All-drop_ticket n ts h.1)
  ]

  pub All-append : (ts us : List Ticket) → All P ts → All P us → All P (ts ++ us)
  All-append [] us h k = k
  All-append (t ∷ ts) us h k = (h.0, All-append ts us h.1 k)

-- The ticket in front is the least.
pub least_ticket-le :
    (t : Ticket) (ts : List Ticket)
    → (least_ticket t ts).number ≤ t.number × All (λ u. (least_ticket t ts).number ≤ u.number) ts
unfolding least_ticket
least_ticket-le t [] = (omega arith, tt)
least_ticket-le t (u ∷ us) =
    let (a, c) = least_ticket-le (if ltb u.number t.number then u else t) us in
    (ground arith, (ground arith, c))

module _ (alive : ℕ → Bool) (high : ℕ) (d : Directory) (h : IsQueue high d) where
  cleanup_stale-IsQueue : IsQueue high (cleanup_stale alive d)
  unfolding cleanup_stale
  cleanup_stale-IsQueue = (h.0, All-live_tickets _ alive d.tickets h.1)

  pub create_ticket-IsQueue : (job : String) (p : ℕ) → IsQueue high (create_ticket alive job p d).0
  unfolding create_ticket
  create_ticket-IsQueue job p = elim (Bool-cases (is_blocked d)) [
    | inl b ↦ rw b h
    | inr b ↦ rw b (
      omega (arith, h.0),
      All-append _ _ _
          (All-map (IsFenced high d.counter) _ (λ t k. (k.0, omega (arith, k.1))) _
            cleanup_stale-IsQueue.1)
          ((omega (arith, h.0), omega arith), tt),
    )
  ]

  pub withdraw-IsQueue :
      (e : Trouble) (n : ℕ) (job : String) (p : ℕ) → IsQueue high (withdraw e n job p d)
  unfolding withdraw mark_failed close_lock
  withdraw-IsQueue e n job p =
      ground (arith, All-drop_ticket (IsFenced high d.counter) n d.tickets h.1)

  pub reconcile-IsQueue : (e : Proof) (job : String) → IsQueue high (reconcile alive e job d).0
  unfolding reconcile
  reconcile-IsQueue e job = ground (arith, cleanup_stale-IsQueue)

  pub release-IsQueue :
      (written closes : Bool) (n : ℕ) (job : String) (p : ℕ) (fault : Fault) (token : ℕ)
      → IsQueue high (release written closes n job p fault token d).0
  unfolding release
  release-IsQueue written closes n job p fault token = ground arith

-- What is left after the least ticket is dropped lies above it.
All-drop_least :
    (n : ℕ) (ts : List Ticket)
    → All (λ t. n ≤ t.number) ts
    → All (λ t. n < t.number) (drop_ticket n ts)
unfolding drop_ticket
All-drop_least n [] h = tt
All-drop_least n (t ∷ ts) h = ground (arith, ==_iff t.number n, All-drop_least n ts h.1)

All-least_ticket :
    (P : Ticket → Type 0) (t : Ticket) (ts : List Ticket) → P t → All P ts → P (least_ticket t ts)
unfolding least_ticket
All-least_ticket P t [] h k = h
All-least_ticket P t (u ∷ us) h k = elim (Bool-cases (ltb u.number t.number)) [
  | inl b ↦ rw b (All-least_ticket P u us k.0 k.1)
  | inr b ↦ rw b (All-least_ticket P t us h k.1)
]

drop_front :
    (high counter n : ℕ) (ts : List Ticket)
    → All (IsFenced high counter) ts
    → is_front n (front ts) ≡ true
    → (high < n) × (n ≤ counter) × All (IsFenced n counter) (drop_ticket n ts)
drop_front high counter n [] h f = ground arith
drop_front high counter n (t ∷ ts) h f = (
  rw (sym same) fenced.0,
  rw (sym same) fenced.1,
  All-both (λ u. n < u.number) (IsFenced high counter) (IsFenced n counter) (λ u a b. (a, b.1))
      (drop_ticket n (t ∷ ts)) (All-drop_least n (t ∷ ts) least)
      (All-drop_ticket (IsFenced high counter) n (t ∷ ts) h),
)
  where
    same : (least_ticket t ts).number ≡ n
    same = (==_iff (least_ticket t ts).number n).0 f

    fenced : IsFenced high counter (least_ticket t ts)
    fenced = All-least_ticket (IsFenced high counter) t ts h.0 h.1

    least : All (λ u. n ≤ u.number) (t ∷ ts)
    least = subst (λ m. All (λ u. m ≤ u.number) (t ∷ ts)) same (least_ticket-le t ts)

-- The branches of an inspection, after the removal of stale entries where there is one.
pub inspect-cases :
    (alive : ℕ → Bool) (n : ℕ) (job : String) (p : ℕ) (d : Directory)
    → (let c = cleanup_stale alive d in
        (inspect alive n job p d ≡ (d, raised))
        ⊎ (inspect alive n job p d ≡ (c, raised))
        ⊎ (inspect alive n job p d ≡ (c, waits))
        ⊎ (inspect alive n job p d ≡ (admit_first n job p c, admitted))
          × (is_front n (front c.tickets) ≡ true)
          × (d.lock ≡ none))
unfolding inspect
inspect-cases alive n job p d = elim (Bool-cases (is_blocked d)) [
  | inl b ↦ inl (rw b refl)
  | inr b ↦ rw b (elim (Bool-cases (has_ticket n (cleanup_stale alive d).tickets)) [
    | inl t ↦ rw t (elim (Bool-cases (is_front n (front (cleanup_stale alive d).tickets))) [
      | inl f ↦ rw f (elim (Option-cases d.lock) [
        | inl l ↦ rw l (inr (inr (inr (refl, refl, refl))))
        | inr (q, l) ↦ rw l (inr (inr (inl refl)))
      ])
      | inr f ↦ rw f (inr (inr (inl refl)))
    ])
    | inr t ↦ rw t (inr (inl refl))
  ])
]

-- An inspection keeps the queue above the ticket that was admitted last, which may be its own.
pub inspect-IsQueue :
    (alive : ℕ → Bool) (n : ℕ) (job : String) (p : ℕ) (d : Directory) (ns : List ℕ)
    → IsQueue (top ns) d
    → IsOrdered ns
    → (let (d', s) = inspect alive n job p d in
        IsQueue (top (recorded n s ns)) d' × IsOrdered (recorded n s ns))
unfolding cleanup_stale drop_ticket
inspect-IsQueue alive n job p d ns h o = elim (inspect-cases alive n job p d) [
  | inl e ↦ rw e (h, o)
  | inr (inl e) ↦ rw e (cleanup_stale-IsQueue alive (top ns) d h, o)
  | inr (inr (inl e)) ↦ rw e (cleanup_stale-IsQueue alive (top ns) d h, o)
  | inr (inr (inr (e, f, l))) ↦ rw e (
      let (a, b, c) =
        drop_front (top ns) d.counter n (live_tickets alive d.tickets)
          (cleanup_stale-IsQueue alive (top ns) d h).1 f in
      ((b, c), (a, o)))
]

pub close_lock-IsQueue :
    (high p : ℕ) (d : Directory) → IsQueue high d → IsQueue high (close_lock p d)
unfolding close_lock
close_lock-IsQueue high p d h = h
