-- ===== src/Fifo/Tests.antt =====
-- deploy/obs-transcription/gpu_lease_runner.py: the theorems at concrete runs of two workers.
use recursive_harness_builde.Prelude.{
  ◌≡◌, ◌≢◌, refl, ◌⊎◌, none, some, true, false, [], ◌∷◌, first, later, contains, arith, All,
}
use recursive_harness_builde.Fifo.Directory.{
  Ticket, is_blocked, cleanup_stale, live_tickets, least_ticket, has_ticket, drop_ticket,
  close_lock,
}
use recursive_harness_builde.Fifo.Admission.{create_ticket, inspect}
use recursive_harness_builde.Fifo.Release.{undisturbed, syncing, release, reconcile}
use recursive_harness_builde.Fifo.Workers.{
  Place, idle, waiting, holding, Worker, World, Run, start, create, look, stay, step, alive_in,
}
use recursive_harness_builde.Fifo.Order.{IsFair, Run-IsFair}
use recursive_harness_builde.Fifo.Holding.{IsSound}
use recursive_harness_builde.Fifo.Exclusion.{sole_holder, holder_releases}
use recursive_harness_builde.Fifo.Liveness.{line_of_live, serve, queue_served}
use recursive_harness_builde.Fifo.Blocking.{
  IsCleared, release_blocks, Step_blocked, holder_keeps_evidence,
}

abbrev empty : World
empty = record {
  dir = record {
    counter = 0;
    tickets = [];
    owner = none;
    fail_closed = none;
    guard = none;
    lock = none;
  };
  workers = [];
  fresh = 1;
  history = [];
}

abbrev ann : Place → Worker
ann place = record { process = 1; job = "ann"; place = place }

abbrev bob : Place → Worker
bob place = record { process = 2; job = "bob"; place = place }

abbrev ann_ticket : Ticket
ann_ticket = record { number = 1; job = "ann"; process = 1 }

abbrev bob_ticket : Ticket
bob_ticket = record { number = 2; job = "bob"; process = 2 }

-- Both have a ticket.
abbrev queued : World
queued = record {
  dir = record empty.dir { counter = 2; tickets = ann_ticket ∷ bob_ticket ∷ [] };
  workers = bob (waiting 2) ∷ ann (waiting 1) ∷ [];
  fresh = 3;
  history = [];
}

-- The first one is admitted.
abbrev served : World
served = record {
  dir = record empty.dir {
    counter = 2;
    tickets = bob_ticket ∷ [];
    owner = some ann_ticket;
    lock = some 1;
  };
  workers = ann (holding 1) ∷ bob (waiting 2) ∷ [];
  fresh = 3;
  history = 1 ∷ [];
}

started : Run empty (record empty { workers = bob idle ∷ ann idle ∷ []; fresh = 3 })
started = step (step (stay empty) (start _ "ann")) (start _ "bob")

queueing : Run empty queued
unfolding create_ticket is_blocked cleanup_stale live_tickets alive_in contains
queueing = step (step started (create _ (later first) refl)) (create _ (later first) refl)

serving : Run empty served
unfolding inspect is_blocked cleanup_stale live_tickets alive_in contains has_ticket least_ticket
    drop_ticket
serving = step queueing (look _ 1 (later first) refl)

empty-IsSound : IsSound empty
empty-IsSound = record { holders = tt; distinct = tt; below = tt }

Run-IsFair_example : IsFair served
Run-IsFair_example = Run-IsFair empty served serving ((omega arith, tt), tt)

sole_holder_example : (bob (waiting 2)).place ≢ holding 2
sole_holder_example = sole_holder empty served serving empty-IsSound first first 1 2 refl

holder_releases_example :
    release true true 1 "ann" 1 undisturbed 7 served.dir
    ≡ (record served.dir { owner = none; lock = none }, true)
unfolding is_blocked
holder_releases_example =
    holder_releases empty served serving empty-IsSound first 1 refl refl true true 7

release_blocks_example : is_blocked (release true true 1 "ann" 1 syncing 7 served.dir).0 ≡ true
unfolding release
release_blocks_example = release_blocks true 1 "ann" 1 syncing 7 served.dir

abbrev failed : World
failed = record served { dir = record served.dir { fail_closed = some "old" } }

Step_blocked_example :
    let after = record failed {
      fresh = 4;
      workers = record { process = 3; job = "cem"; place = idle } ∷ failed.workers;
    } in
    (after.history ≡ failed.history)
    × (((is_blocked after.dir ≡ true) × (after.dir.counter ≡ failed.dir.counter))
        ⊎ IsCleared after.dir)
unfolding is_blocked
Step_blocked_example = Step_blocked failed _ (start failed "cem") refl

holder_keeps_evidence_example :
    let (d, cleared) =
      reconcile
        (alive_in served.workers)
        (record { lock_free = true; demands_empty = true; gpu_idle = true })
        "old"
        served.dir in
    (cleared ≡ false) × (d.fail_closed ≡ served.dir.fail_closed) × (d.guard ≡ served.dir.guard)
holder_keeps_evidence_example =
    holder_keeps_evidence empty served serving empty-IsSound first 1 refl
      (record { lock_free = true; demands_empty = true; gpu_idle = true }) "old"

queue_served_example :
    let alive = alive_in queued.workers in
    let (d, done) = serve alive 7 (line_of_live alive queued.dir.tickets) queued.dir in
    (done ≡ true)
    × All (λ t. alive t.process ≡ false) d.tickets
    × (d.lock ≡ none)
    × (is_blocked d ≡ false)
    × (d.counter ≡ queued.dir.counter)
unfolding is_blocked
queue_served_example = queue_served empty queued queueing ((omega arith, tt), tt) tt refl refl 7

-- The first worker is dead.
bob_served :
    let alive = alive_in (bob (waiting 2) ∷ []) in
    serve alive 7 (line_of_live alive queued.dir.tickets) queued.dir
    ≡ (record empty.dir { counter = 2 }, true)
unfolding is_blocked live_tickets alive_in contains least_ticket inspect release cleanup_stale
    has_ticket drop_ticket close_lock
bob_served = refl
