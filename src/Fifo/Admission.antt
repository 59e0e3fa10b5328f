-- ===== src/Fifo/Admission.antt =====
-- deploy/obs-transcription/gpu_lease_runner.py: the critical sections of `_acquire_fifo_admission`,
-- each under the queue mutex. The writes of a section that admits or creates a ticket succeed.
use recursive_harness_builde.Prelude.{
  ℕ, suc, String, Option, none, some, Bool, false, ◌&&◌, not, [], ◌∷◌, ◌++◌, ◌==◌, nat_eq, is_some,
  if◌then◌else◌,
}
use recursive_harness_builde.Fifo.Directory.{
  Ticket, Directory, is_blocked, cleanup_stale, front, has_ticket, drop_ticket, mark_failed,
  close_lock,
}

abbrev pub add_ticket : String → ℕ → Directory → Directory
add_ticket job p d = record d {
  counter = suc d.counter;
  tickets = d.tickets ++ record { number = suc d.counter; job = job; process = p } ∷ [];
}

-- The first section: the number of the new ticket, or `none` where it raises.
unfoldable pub create_ticket : (ℕ → Bool) → String → ℕ → Directory → Directory × Option ℕ
unfolding cleanup_stale is_blocked
create_ticket alive job p d =
    if is_blocked d
    then (d, none)
    else (add_ticket job p (cleanup_stale alive d), some (suc d.counter))

pub data Seen : Type 0 where
  raised waits admitted : Seen

abbrev pub is_front : ℕ → Option Ticket → Bool
is_front n none = false
is_front n (some t) = t.number == n

abbrev pub admit_first : ℕ → String → ℕ → Directory → Directory
admit_first n job p d = record d {
  tickets = drop_ticket n d.tickets;
  owner = some (record { number = n; job = job; process = p });
  lock = some p;
}

abbrev inspect_live : ℕ → String → ℕ → Directory → Directory × Seen
inspect_live n job p d =
    if not (has_ticket n d.tickets)
    then (d, raised)
    else if is_front n (front d.tickets) && not (is_some d.lock)
    then (admit_first n job p d, admitted)
    else (d, waits)

-- One round of the waiting loop.
unfoldable pub inspect : (ℕ → Bool) → ℕ → String → ℕ → Directory → Directory × Seen
unfolding cleanup_stale is_blocked has_ticket drop_ticket
inspect alive n job p d =
    if is_blocked d then (d, raised) else inspect_live n job p (cleanup_stale alive d)

-- What happens in the handler of an exception: whether it gets the mutex and removes the ticket, whether
-- the descriptor is closed without an error, and whether a mark can be written.
pub record Trouble : Type 0 where
  pub removed : Bool
  pub closes : Bool
  pub written : Bool

-- The handler of `_acquire_fifo_admission`.
unfoldable pub withdraw : Trouble → ℕ → String → ℕ → Directory → Directory
unfolding mark_failed close_lock drop_ticket
withdraw e n job p d =
    let d' =
      if e.removed
      then record d { tickets = drop_ticket n d.tickets }
      else mark_failed e.written job d in
    if e.closes then close_lock p d' else if e.removed then mark_failed e.written job d' else d'
