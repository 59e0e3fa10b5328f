-- ===== src/Fifo/Order.antt =====
-- deploy/obs-transcription/gpu_lease_runner.py: the order in which the workers are admitted.
use recursive_harness_builde.Fifo.Workers.{
  World, Step, Run, start, create, look, give_up, note_fails, leave, free, die, clear, stay, step,
  alive_in,
}
use recursive_harness_builde.Fifo.Queue.{
  IsQueue, IsOrdered, top, create_ticket-IsQueue, inspect-IsQueue, withdraw-IsQueue,
  reconcile-IsQueue, release-IsQueue, close_lock-IsQueue,
}

-- The admitted tickets ascend, and those that wait lie above them.
abbrev pub IsFair : World → Type 0
IsFair w = IsQueue (top w.history) w.dir × IsOrdered w.history

-- Every step of every worker, its death and a reconciliation among them, keeps the tickets that wait
-- above those that were admitted, and the admitted ones in ascending order.
pub Step-IsFair : (w w' : World) → Step w w' → IsFair w → IsFair w'
Step-IsFair _ _ (start w job) h = h
Step-IsFair _ _ (create w {a = a} _ _) h =
    (create_ticket-IsQueue (alive_in w.workers) (top w.history) w.dir h.0 a.job a.process, h.1)
Step-IsFair _ _ (look w n {a = a} _ _) h =
    inspect-IsQueue (alive_in w.workers) n a.job a.process w.dir w.history h.0 h.1
Step-IsFair _ _ (give_up w n _ _) h = h
Step-IsFair _ _ (note_fails w n _ _) h = h
Step-IsFair _ _ (leave w n e {a = a} _ _) h =
    (withdraw-IsQueue (alive_in w.workers) (top w.history) w.dir h.0 e n a.job a.process, h.1)
Step-IsFair _ _ (free w n written closes fault token {a = a} _ _) h = (
  release-IsQueue (alive_in w.workers) (top w.history) w.dir h.0 written closes n a.job a.process
      fault token,
  h.1,
)
Step-IsFair _ _ (die w {a = a} _) h = (close_lock-IsQueue (top w.history) a.process w.dir h.0, h.1)
Step-IsFair _ _ (clear w e job) h =
    (reconcile-IsQueue (alive_in w.workers) (top w.history) w.dir h.0 e job, h.1)

-- In every run from a fair world the tickets are admitted in ascending order: no worker is admitted
-- after one that drew its ticket later.
pub Run-IsFair : (w w' : World) → Run w w' → IsFair w → IsFair w'
Run-IsFair _ _ (stay w) h = h
Run-IsFair u w (step {v = v} r s) h = Step-IsFair v w s (Run-IsFair u v r h)
