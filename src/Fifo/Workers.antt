-- ===== src/Fifo/Workers.antt =====
-- deploy/obs-transcription/gpu_lease_runner.py: worker processes that share the directory, interleaved
-- at the critical sections of the queue mutex.
use recursive_harness_builde.Prelude.{
  ℕ, suc, ◌≡◌, String, Option, none, some, Bool, List, ◌∷◌, contains, nat_eq, map, Pick,
}
use recursive_harness_builde.Fifo.Directory.{Directory, close_lock}
use recursive_harness_builde.Fifo.Admission.{
  Seen, raised, waits, admitted, Trouble, create_ticket, inspect, withdraw,
}
use recursive_harness_builde.Fifo.Release.{Fault, Proof, release, reconcile}

-- Where a worker stands: before its ticket, in the waiting loop, in the handler of that loop, with the
-- admission, or past them.
pub data Place : Type 0 where
  idle : Place
  waiting leaving holding : ℕ → Place
  finished : Place

pub record Worker : Type 0 where
  pub process : ℕ
  pub job : String
  pub place : Place

pub record World : Type 0 where
  pub dir : Directory
  pub workers : List Worker
  pub fresh : ℕ  -- the next process
  pub history : List ℕ  -- the tickets that were admitted, the newest first

abbrev pub process_of : Worker → ℕ
process_of a = a.process

-- `_process_identity_alive`
unfoldable pub alive_in : List Worker → ℕ → Bool
alive_in ws = contains (map process_of ws)

abbrev pub placed : Option ℕ → Place
placed none = finished
placed (some n) = waiting n

abbrev pub seen_place : ℕ → Seen → Place
seen_place n raised = leaving n
seen_place n waits = waiting n
seen_place n admitted = holding n

abbrev pub recorded : ℕ → Seen → List ℕ → List ℕ
recorded n admitted ns = n ∷ ns
recorded n _ ns = ns

abbrev pub moved : Worker → Place → List Worker → List Worker
moved a pc rest = record a { place = pc } ∷ rest

-- One section of one worker, its death at any point, or a reconciliation. `give_up` stands for the end of
-- the waiting loop by its deadline or by any exception outside the mutex, and `note_fails` for the
-- exception of the `_append_event` after an admission, which leads to the same handler with the lock and
-- the owner file still in place; here it may come as long as the admission is held. A worker that is
-- killed inside `_release_fifo_admission` is one whose release fails with no mark written and that dies
-- at once.
pub data Step : World → World → Type 0 where
  start :
      (w : World) (job : String)
      → Step w (record w {
        workers = record { process = w.fresh; job = job; place = idle } ∷ w.workers;
        fresh = suc w.fresh;
      })
  create :
      (w : World) {a : Worker} {rest : List Worker}
      → Pick a w.workers rest
      → a.place ≡ idle
      → Step w (
          let (d, t) = create_ticket (alive_in w.workers) a.job a.process w.dir in
          record w { dir = d; workers = moved a (placed t) rest })
  look :
      (w : World) (n : ℕ) {a : Worker} {rest : List Worker}
      → Pick a w.workers rest
      → a.place ≡ waiting n
      → Step w (
          let (d, s) = inspect (alive_in w.workers) n a.job a.process w.dir in
          record w {
            dir = d;
            workers = moved a (seen_place n s) rest;
            history = recorded n s w.history;
          })
  give_up :
      (w : World) (n : ℕ) {a : Worker} {rest : List Worker}
      → Pick a w.workers rest
      → a.place ≡ waiting n
      → Step w (record w { workers = moved a (leaving n) rest })
  note_fails :
      (w : World) (n : ℕ) {a : Worker} {rest : List Worker}
      → Pick a w.workers rest
      → a.place ≡ holding n
      → Step w (record w { workers = moved a (leaving n) rest })
  leave :
      (w : World) (n : ℕ) (e : Trouble) {a : Worker} {rest : List Worker}
      → Pick a w.workers rest
      → a.place ≡ leaving n
      → Step w
          (record w { dir = withdraw e n a.job a.process w.dir; workers = moved a finished rest })
  free :
      (w : World) (n : ℕ) (written closes : Bool) (fault : Fault) (token : ℕ) {a : Worker}
      {rest : List Worker}
      → Pick a w.workers rest
      → a.place ≡ holding n
      → Step w (record w {
        dir = (release written closes n a.job a.process fault token w.dir).0;
        workers = moved a finished rest;
      })
  die :
      (w : World) {a : Worker} {rest : List Worker}
      → Pick a w.workers rest
      → Step w (record w { dir = close_lock a.process w.dir; workers = rest })
  clear :
      (w : World) (e : Proof) (job : String)
      → Step w (record w { dir = (reconcile (alive_in w.workers) e job w.dir).0 })

pub data Run : World → World → Type 0 where
  stay : (w : World) → Run w w
  step : {u v w : World} → Run u v → Step v w → Run u w
