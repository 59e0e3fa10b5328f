-- ===== src/Fifo/Directory.antt =====
-- deploy/obs-transcription/gpu_lease_runner.py: the directory `ADMISSION_ROOT` that the workers share.
-- A process is a number, which stands for its pid and its start time together.
use recursive_harness_builde.Prelude.{
  ℕ, String, Option, none, some, Bool, true, false, ◌||◌, List, [], ◌∷◌, ltb, is_some, ◌==◌, nat_eq,
  if◌then◌else◌,
}

-- A ticket file, or the owner file.
pub record Ticket : Type 0 where
  pub number : ℕ
  pub job : String
  pub process : ℕ

-- The release guard.
pub record Guard : Type 0 where
  pub job : String
  pub token : ℕ

pub record Directory : Type 0 where
  pub counter : ℕ
  pub tickets : List Ticket
  pub owner : Option Ticket
  pub fail_closed : Option String  -- the job that `fail-closed.json` names
  pub guard : Option Guard
  pub lock : Option ℕ  -- the process that holds `admission.lock`

-- `_raise_if_admission_failed_closed` raises.
unfoldable pub is_blocked : Directory → Bool
is_blocked d = is_some d.fail_closed || is_some d.guard

unfoldable pub live_tickets : (ℕ → Bool) → List Ticket → List Ticket
live_tickets alive [] = []
live_tickets alive (t ∷ ts) =
    if alive t.process then t ∷ live_tickets alive ts else live_tickets alive ts

abbrev pub live_owner : (ℕ → Bool) → Option Ticket → Option Ticket
live_owner alive none = none
live_owner alive (some t) = if alive t.process then some t else none

-- `_cleanup_stale_admission_locked`
unfoldable pub cleanup_stale : (ℕ → Bool) → Directory → Directory
cleanup_stale alive d = record d {
  tickets = live_tickets alive d.tickets;
  owner = live_owner alive d.owner;
}

unfoldable pub least_ticket : Ticket → List Ticket → Ticket
least_ticket t [] = t
least_ticket t (u ∷ us) = least_ticket (if ltb u.number t.number then u else t) us

-- `sorted(…)[0]`: the names sort by their numbers, which are padded with zeros.
abbrev pub front : List Ticket → Option Ticket
front [] = none
front (t ∷ ts) = some (least_ticket t ts)

-- `ticket_path.exists()`
unfoldable pub has_ticket : ℕ → List Ticket → Bool
has_ticket n [] = false
has_ticket n (t ∷ ts) = t.number == n || has_ticket n ts

-- `ticket_path.unlink(missing_ok=True)`
unfoldable pub drop_ticket : ℕ → List Ticket → List Ticket
drop_ticket n [] = []
drop_ticket n (t ∷ ts) = if t.number == n then drop_ticket n ts else t ∷ drop_ticket n ts

-- The descriptor of `admission.lock` is closed: its process holds the lock no more.
abbrev pub unlocked : ℕ → Option ℕ → Option ℕ
unlocked p none = none
unlocked p (some q) = if q == p then none else some q

abbrev pub or_job : Option String → String → Option String
or_job none job = some job
or_job (some old) job = some old

-- `_mark_admission_failed_closed_best_effort`, which does not replace a mark; `written` says that its
-- write succeeds.
unfoldable pub mark_failed : Bool → String → Directory → Directory
mark_failed false job d = d
mark_failed true job d = record d { fail_closed = or_job d.fail_closed job }

unfoldable pub close_lock : ℕ → Directory → Directory
close_lock p d = record d { lock = unlocked p d.lock }
