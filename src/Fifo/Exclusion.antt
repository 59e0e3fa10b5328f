-- ===== src/Fifo/Exclusion.antt =====
-- deploy/obs-transcription/gpu_lease_runner.py: one worker at a time has the admission, and what its
-- release finds.
use recursive_harness_builde.Prelude.{
  ℕ, ◌≡◌, ◌≢◌, Option, none, some, Bool, true, false, List, Pick, picked, arith, ==_refl, nat_eq,
  string_eq,
}
use recursive_harness_builde.Fifo.Directory.{Directory, is_blocked, close_lock}
use recursive_harness_builde.Fifo.Admission.{create_ticket, inspect}
use recursive_harness_builde.Fifo.Release.{undisturbed, release}
use recursive_harness_builde.Fifo.Queue.{inspect-cases}
use recursive_harness_builde.Fifo.Workers.{
  holding, Worker, World, Step, Run, start, create, look, give_up, note_fails, leave, free, die,
  clear, stay, step, alive_in, placed, seen_place,
}
use recursive_harness_builde.Fifo.Holding.{
  IsHolder, IsSound, Keeps, apart, create_ticket-Keeps, withdraw-Keeps, inspect-Keeps,
  close_lock-Keeps, moved-IsSound, gone-IsSound, started-IsSound, cleared-IsSound,
}

-- A worker whose inspection succeeds is a holder after it.
inspect-IsHolder :
    (alive : ℕ → Bool) (n : ℕ) (d : Directory) (a : Worker)
    → (let (d', s) = inspect alive n a.job a.process d in
        IsHolder d' (record a { place = seen_place n s }))
inspect-IsHolder alive n d a m e = ground (arith, e, inspect-cases alive n a.job a.process d)

placed-IsHolder :
    (d : Directory) (t : Option ℕ) (a : Worker) → IsHolder d (record a { place = placed t })
placed-IsHolder d none a m e = ground (arith, e)
placed-IsHolder d (some n) a m e = ground (arith, e)

-- The others do not hold what the worker that releases holds.
holder-Keeps :
    (alive : ℕ → Bool) (n : ℕ) (d d' : Directory) (a : Worker)
    → IsHolder d a
    → a.place ≡ holding n
    → Keeps alive a.process d d'
holder-Keeps alive n d d' a h e t other live l o = ground (arith, h n e, l, other)

pub Step-IsSound : (w w' : World) → Step w w' → IsSound w → IsSound w'
Step-IsSound _ _ (start w job) i = started-IsSound w i job
Step-IsSound _ _ (create w {a = a} p e) i =
    moved-IsSound w i p _ _ w.history
      (create_ticket-Keeps (alive_in w.workers) a.process w.dir a.job)
      (placed-IsHolder (create_ticket (alive_in w.workers) a.job a.process w.dir).0 _ a)
Step-IsSound _ _ (look w n {a = a} p e) i =
    moved-IsSound w i p _ _ _ (inspect-Keeps (alive_in w.workers) a.process w.dir n a.job)
      (inspect-IsHolder (alive_in w.workers) n w.dir a)
Step-IsSound _ _ (give_up w n {a = a} p e) i =
    moved-IsSound w i p w.dir _ w.history (λ t other live l o. (l, o)) (λ m k. ground (arith, k))
Step-IsSound _ _ (note_fails w n {a = a} p e) i =
    moved-IsSound w i p w.dir _ w.history (λ t other live l o. (l, o)) (λ m k. ground (arith, k))
Step-IsSound _ _ (leave w n env {a = a} p e) i =
    moved-IsSound w i p _ _ w.history
      (withdraw-Keeps (alive_in w.workers) a.process w.dir env n a.job) (λ m k. ground (arith, k))
Step-IsSound _ _ (free w n written closes fault token {a = a} p e) i =
    moved-IsSound w i p _ _ w.history
      (holder-Keeps (alive_in w.workers) n w.dir
        (release written closes n a.job a.process fault token w.dir).0 a (picked _ p i.holders).0 e)
      (λ m k. ground (arith, k))
Step-IsSound _ _ (die w {a = a} p) i =
    gone-IsSound w i p _ (close_lock-Keeps (alive_in w.workers) a.process w.dir)
Step-IsSound _ _ (clear w env job) i = cleared-IsSound w i env job

pub Run-IsSound : (w w' : World) → Run w w' → IsSound w → IsSound w'
Run-IsSound _ _ (stay w) i = i
Run-IsSound u w (step {v = v} r s) i = Step-IsSound v w s (Run-IsSound u v r i)

-- In every run from a sound world at most one worker has the admission, whatever workers start, fail and
-- die in between, and in whatever order.
pub sole_holder :
    (w w' : World)
    → Run w w'
    → IsSound w
    → {a b : Worker} {rest rest' : List Worker} → Pick a w'.workers rest
    → Pick b rest rest'
    → (n m : ℕ) → a.place ≡ holding n
    → b.place ≢ holding m
sole_holder w w' r i {a} {b} p q n m e k = ground (
  arith,
  (picked _ p s.holders).0 n e,
  (picked _ q (picked _ p s.holders).1).0 m k,
  (picked _ q (apart w' s p).0).0,
)
  where
    s : IsSound w'
    s = Run-IsSound w w' r i

-- In every run from a sound world, a worker that has the admission and releases it undisturbed while
-- nothing blocks the directory gets no error, and leaves neither an owner nor a lock nor a guard.
pub holder_releases :
    (w w' : World)
    → Run w w'
    → IsSound w
    → {a : Worker} {rest : List Worker} → Pick a w'.workers rest
    → (n : ℕ) → a.place ≡ holding n
    → is_blocked w'.dir ≡ false
    → (written closes : Bool) (token : ℕ)
    → release written closes n a.job a.process undisturbed token w'.dir
      ≡ (record w'.dir { owner = none; lock = none }, true)
unfolding release is_blocked close_lock
holder_releases w w' r i {a} p n e b written closes token =
    ground (arith, (picked _ p s.holders).0 n e, b, ==_refl n, ==_refl a.job, ==_refl a.process)
  where
    s : IsSound w'
    s = Run-IsSound w w' r i
