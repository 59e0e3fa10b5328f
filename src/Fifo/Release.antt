-- ===== src/Fifo/Release.antt =====
-- deploy/obs-transcription/gpu_lease_runner.py: `_release_fifo_admission` and
-- `reconcile_admission_fail_closed`.
use recursive_harness_builde.Prelude.{
  ℕ, String, Option, none, some, Bool, true, false, ◌&&◌, ◌||◌, not, ◌==◌, nat_eq, string_eq,
  is_some, is_empty, if◌then◌else◌,
}
use recursive_harness_builde.Fifo.Directory.{
  Ticket, Guard, Directory, cleanup_stale, mark_failed, close_lock,
}

-- Where a release is disturbed, if it is: the call that raises, or another worker's mark that appears
-- before the last checks.
pub data Fault : Type 0 where
  undisturbed taking_mutex writing_guard unlinking_owner syncing unlocking closing : Fault
  marked : String → Fault
  unlinking_guard syncing_guard unlocking_mutex : Fault

abbrev pub owner_matches : Option Ticket → ℕ → String → ℕ → Bool
owner_matches none n job p = false
owner_matches (some t) n job p = t.job == job && t.number == n && t.process == p

module _ (written closes : Bool) (n : ℕ) (job : String) (p : ℕ) where
  -- The handlers: the mark, and the descriptor.
  abbrev pub failed_release : Directory → Directory × Bool
  failed_release d =
      let d' = mark_failed written job d in ((if closes then close_lock p d' else d'), false)

  -- The handler where foreign evidence is found: it marks nothing.
  abbrev pub refused_release : Directory → Directory × Bool
  refused_release d = ((if closes then close_lock p d else d), false)

  -- From the release of the lock on.
  abbrev pub release_lock : Fault → Directory → Directory × Bool
  release_lock unlocking d = failed_release d
  release_lock closing d = failed_release (close_lock p d)
  release_lock (marked other) d = failed_release (mark_failed true other (close_lock p d))
  release_lock unlinking_guard d = failed_release (close_lock p d)
  release_lock syncing_guard d = failed_release (record (close_lock p d) { guard = none })
  release_lock unlocking_mutex d =
      (mark_failed written job (record (close_lock p d) { guard = none }), false)
  release_lock _ d = (record (close_lock p d) { guard = none }, true)

  -- From the unlinking of the owner file on.
  abbrev pub release_owner : Fault → Directory → Directory × Bool
  release_owner unlinking_owner d = failed_release d
  release_owner syncing d = failed_release (record d { owner = none })
  release_owner fault d = release_lock fault (record d { owner = none })

  -- With the guard in place.
  abbrev pub release_guarded : Fault → Directory → Directory × Bool
  release_guarded fault d =
      if not (owner_matches d.owner n job p) then failed_release d else release_owner fault d

  abbrev pub release_locked : Fault → ℕ → Directory → Directory × Bool
  release_locked writing_guard token d = failed_release d
  release_locked fault token d =
      release_guarded fault (record d { guard = some (record { job = job; token = token }) })

  -- `_release_fifo_admission`; the Boolean says that it returns without an error.
  unfoldable pub release : Fault → ℕ → Directory → Directory × Bool
  unfolding mark_failed close_lock
  release taking_mutex token d = failed_release d
  release fault token d =
      if is_some d.fail_closed || is_some d.guard
      then refused_release d
      else release_locked fault token d

-- What `reconcile_admission_fail_closed` learns from outside.
pub record Proof : Type 0 where
  pub lock_free : Bool
  pub demands_empty : Bool
  pub gpu_idle : Bool

abbrev pub fails_other : Option String → String → Bool
fails_other none job = false
fails_other (some j) job = not (j == job)

abbrev pub guards_other : Option Guard → String → Bool
guards_other none job = false
guards_other (some g) job = not (g.job == job)

abbrev reconcile_clean : Proof → Directory → Directory × Bool
reconcile_clean e d =
    if not (is_empty d.tickets) || is_some d.owner
    then (d, false)
    else if not e.lock_free || not e.demands_empty || not e.gpu_idle
    then (d, false)
    else (record d { fail_closed = none; guard = none }, true)

-- `reconcile_admission_fail_closed`; the Boolean says that it cleared the evidence.
unfoldable pub reconcile : (ℕ → Bool) → Proof → String → Directory → Directory × Bool
unfolding cleanup_stale
reconcile alive e job d =
    if not (is_some d.fail_closed) && not (is_some d.guard)
    then (d, false)
    else if fails_other d.fail_closed job || guards_other d.guard job
    then (d, false)
    else reconcile_clean e (cleanup_stale alive d)
