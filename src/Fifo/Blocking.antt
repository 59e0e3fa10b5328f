-- ===== src/Fifo/Blocking.antt =====
-- deploy/obs-transcription/gpu_lease_runner.py: what blocks the directory, and what ends that.
use recursive_harness_builde.Prelude.{
  ℕ, ◌≡◌, refl, ◌⊎◌, inl, String, none, some, Bool, true, false, not, List, [], ◌∷◌, Pick, picked,
  arith, ==_refl, nat_eq, string_eq, ltb, if◌then◌else◌,
}
use recursive_harness_builde.Fifo.Directory.{
  Ticket, Directory, is_blocked, cleanup_stale, live_tickets, mark_failed, close_lock, least_ticket,
  front, has_ticket,
}
use recursive_harness_builde.Fifo.Admission.{
  Trouble, admitted, create_ticket, inspect, withdraw, admit_first,
}
use recursive_harness_builde.Fifo.Release.{Fault, Proof, release, reconcile}
use recursive_harness_builde.Fifo.Workers.{
  Worker, World, Step, Run, start, create, look, give_up, note_fails, leave, free, die, clear,
  holding, alive_in,
}
use recursive_harness_builde.Fifo.Holding.{IsSound, All-IsAlive}
use recursive_harness_builde.Fifo.Exclusion.{Run-IsSound}

-- Where a mark can be written, a release blocks the directory exactly if it ends with an error, at
-- whatever call it is disturbed and in whatever directory.
pub release_blocks :
    (closes : Bool) (n : ℕ) (job : String) (p : ℕ) (fault : Fault) (token : ℕ) (d : Directory)
    → (let (d', returns) = release true closes n job p fault token d in is_blocked d' ≡ not returns)
unfolding release is_blocked mark_failed close_lock
release_blocks closes n job p fault token d = ground arith

abbrev pub IsCleared : Directory → Type 0
IsCleared d = (is_blocked d ≡ false) × (d.tickets ≡ []) × (d.owner ≡ none)

module _ (d : Directory) (b : is_blocked d ≡ true) where
  pub withdraw_blocked :
      (e : Trouble) (n : ℕ) (job : String) (p : ℕ)
      → (is_blocked (withdraw e n job p d) ≡ true) × ((withdraw e n job p d).counter ≡ d.counter)
  unfolding withdraw is_blocked mark_failed close_lock
  withdraw_blocked e n job p = ground (arith, b)

  pub release_blocked :
      (written closes : Bool) (n : ℕ) (job : String) (p : ℕ) (fault : Fault) (token : ℕ)
      → (let d' = (release written closes n job p fault token d).0 in
          (is_blocked d' ≡ true) × (d'.counter ≡ d.counter))
  unfolding release is_blocked mark_failed close_lock
  release_blocked written closes n job p fault token = ground (arith, b)

  pub reconcile_blocked :
      (alive : ℕ → Bool) (e : Proof) (job : String)
      → (let d' = (reconcile alive e job d).0 in
          ((is_blocked d' ≡ true) × (d'.counter ≡ d.counter)) ⊎ IsCleared d')
  unfolding reconcile is_blocked cleanup_stale
  reconcile_blocked alive e job = ground (arith, b)

-- From a world whose directory is blocked no step admits a worker or draws a ticket, and the directory
-- stays blocked or is left with no ticket and no owner in it.
pub Step_blocked :
    (w w' : World)
    → Step w w'
    → is_blocked w.dir ≡ true
    → (w'.history ≡ w.history)
      × (((is_blocked w'.dir ≡ true) × (w'.dir.counter ≡ w.dir.counter)) ⊎ IsCleared w'.dir)
unfolding create_ticket inspect close_lock is_blocked
Step_blocked _ _ (start w job) b = (refl, inl (b, refl))
Step_blocked _ _ (create w p e) b = rw b (refl, inl (b, refl))
Step_blocked _ _ (look w n p e) b = rw b (refl, inl (b, refl))
Step_blocked _ _ (give_up w n p e) b = (refl, inl (b, refl))
Step_blocked _ _ (note_fails w n p e) b = (refl, inl (b, refl))
Step_blocked _ _ (leave w n env {a = a} p e) b =
    (refl, inl (withdraw_blocked w.dir b env n a.job a.process))
Step_blocked _ _ (free w n written closes fault token {a = a} p e) b =
    (refl, inl (release_blocked w.dir b written closes n a.job a.process fault token))
Step_blocked _ _ (die w p) b = (refl, inl (b, refl))
Step_blocked _ _ (clear w env job) b =
    (refl, reconcile_blocked w.dir b (alive_in w.workers) env job)

-- In every run from a sound world, while a worker has the admission no reconciliation clears the
-- evidence, whatever it finds outside the directory.
pub holder_keeps_evidence :
    (w w' : World)
    → Run w w'
    → IsSound w
    → {a : Worker} {rest : List Worker} → Pick a w'.workers rest
    → (n : ℕ) → a.place ≡ holding n
    → (e : Proof) (job : String)
    → (let (d, cleared) = reconcile (alive_in w'.workers) e job w'.dir in
        (cleared ≡ false) × (d.fail_closed ≡ w'.dir.fail_closed) × (d.guard ≡ w'.dir.guard))
unfolding reconcile cleanup_stale
holder_keeps_evidence w w' r i {a} p n e env job =
    ground (arith, ((picked _ p s.holders).0 n e).1, (picked _ p (All-IsAlive w'.workers)).0)
  where
    s : IsSound w'
    s = Run-IsSound w w' r i

has_ticket-least_ticket :
    (t : Ticket) (ts : List Ticket) → has_ticket (least_ticket t ts).number (t ∷ ts) ≡ true
unfolding has_ticket least_ticket
has_ticket-least_ticket t [] = ground (arith, ==_refl t.number)
has_ticket-least_ticket t (u ∷ us) =
    ground (arith, has_ticket-least_ticket (if ltb u.number t.number then u else t) us)

has_ticket-front :
    (t : Ticket) (ts : List Ticket) → front ts ≡ some t → has_ticket t.number ts ≡ true
has_ticket-front t [] f = ground arith
has_ticket-front t (u ∷ us) f = ground (arith, f, has_ticket-least_ticket u us)

-- A worker whose ticket is the first one of a live process is admitted by its next inspection where
-- nothing blocks the directory and the lock is free, whatever the dead have left behind.
pub front_admitted :
    (alive : ℕ → Bool) (job : String) (p : ℕ) (d : Directory) (t : Ticket)
    → is_blocked d ≡ false
    → d.lock ≡ none
    → front (live_tickets alive d.tickets) ≡ some t
    → inspect alive t.number job p d
      ≡ (admit_first t.number job p (cleanup_stale alive d), admitted)
unfolding inspect
front_admitted alive job p d t b l f =
    ground (arith, b, l, f, has_ticket-front t (live_tickets alive d.tickets) f, ==_refl t.number)
