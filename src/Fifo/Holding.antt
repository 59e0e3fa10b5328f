-- ===== src/Fifo/Holding.antt =====
-- deploy/obs-transcription/gpu_lease_runner.py: who holds the admission.
use recursive_harness_builde.Prelude.{
  ℕ, suc, ◌≡◌, ◌≢◌, sym, ◌<◌, String, some, Bool, true, List, [], ◌∷◌, All, All-map, All-both, Pick,
  first, later, picked, contains, arith, ==_iff, ==_refl, nat_eq,
}
use recursive_harness_builde.Fifo.Directory.{Ticket, Directory, cleanup_stale, close_lock}
use recursive_harness_builde.Fifo.Admission.{Trouble, create_ticket, inspect, withdraw}
use recursive_harness_builde.Fifo.Release.{Proof, reconcile}
use recursive_harness_builde.Fifo.Queue.{inspect-cases}
use recursive_harness_builde.Fifo.Workers.{Place, idle, holding, Worker, World, alive_in, moved}

-- A worker that has the admission holds the lock and stands in the owner file.
abbrev pub IsHolder : Directory → Worker → Type 0
IsHolder d q =
    (n : ℕ)
    → q.place ≡ holding n
    → (d.lock ≡ some q.process)
      × (d.owner ≡ some (record { number = n; job = q.job; process = q.process }))

abbrev pub IsOther : Worker → Worker → Type 0
IsOther a q = q.process ≢ a.process

abbrev pub IsDistinct : List Worker → Type 0
IsDistinct [] = Unit
IsDistinct (a ∷ ws) = All (IsOther a) ws × IsDistinct ws

abbrev pub IsBelow : ℕ → Worker → Type 0
IsBelow fresh q = q.process < fresh

pub record IsSound (w : World) : Type 0 where
  pub holders : All (IsHolder w.dir) w.workers
  pub distinct : IsDistinct w.workers
  pub below : All (IsBelow w.fresh) w.workers

IsDistinct-Pick :
    {a : Worker} {ws rest : List Worker}
    → Pick a ws rest
    → IsDistinct ws
    → All (IsOther a) rest × IsDistinct rest
IsDistinct-Pick first h = h
IsDistinct-Pick (later {y = y} p) h =
    let (a, b) = IsDistinct-Pick p h.1 in
    let (c, d) = picked (IsOther y) p h.0 in (((λ e. c (sym e)), a), (d, b))

abbrev IsAlive : List Worker → Worker → Type 0
IsAlive ws q = alive_in ws q.process ≡ true

pub All-IsAlive : (ws : List Worker) → All (IsAlive ws) ws
unfolding alive_in contains
All-IsAlive [] = tt
All-IsAlive (a ∷ ws) = (
  ground (arith, ==_refl a.process),
  All-map (IsAlive ws) (IsAlive (a ∷ ws)) (λ q e. ground (arith, e)) ws (All-IsAlive ws),
)

-- A section of the process `p` under which another holder stays one.
abbrev pub Keeps : (ℕ → Bool) → ℕ → Directory → Directory → Type 0
Keeps alive p d d' =
    (t : Ticket)
    → t.process ≢ p
    → alive t.process ≡ true
    → d.lock ≡ some t.process
    → d.owner ≡ some t
    → (d'.lock ≡ some t.process) × (d'.owner ≡ some t)

module _ (alive : ℕ → Bool) (p : ℕ) (d : Directory) where
  pub create_ticket-Keeps : (job : String) → Keeps alive p d (create_ticket alive job p d).0
  unfolding create_ticket cleanup_stale
  create_ticket-Keeps job t other live l o = ground (arith, other, live, l, o)

  pub withdraw-Keeps : (e : Trouble) (n : ℕ) (job : String) → Keeps alive p d (withdraw e n job p d)
  unfolding withdraw
  withdraw-Keeps e n job t other live l o = ground (arith, other, live, l, o, ==_iff t.process p)

  pub inspect-Keeps : (n : ℕ) (job : String) → Keeps alive p d (inspect alive n job p d).0
  unfolding cleanup_stale
  inspect-Keeps n job t other live l o =
      ground (arith, other, live, l, o, inspect-cases alive n job p d)

  pub close_lock-Keeps : Keeps alive p d (close_lock p d)
  unfolding close_lock
  close_lock-Keeps t other live l o = ground (arith, other, live, l, o, ==_iff t.process p)

reconcile-keeps :
    (alive : ℕ → Bool) (d : Directory) (e : Proof) (job : String) (t : Ticket)
    → alive t.process ≡ true
    → d.lock ≡ some t.process
    → d.owner ≡ some t
    → ((reconcile alive e job d).0.lock ≡ some t.process)
      × ((reconcile alive e job d).0.owner ≡ some t)
unfolding reconcile cleanup_stale
reconcile-keeps alive d e job t live l o = ground (arith, live, l, o)

-- The workers that do not move stay holders.
module _ (w : World) {a : Worker} {rest : List Worker} (i : IsSound w)
    (p : Pick a w.workers rest) where
  pub apart : All (IsOther a) rest × IsDistinct rest
  apart = IsDistinct-Pick p i.distinct

  rest_holders :
      (d' : Directory) → Keeps (alive_in w.workers) a.process w.dir d' → All (IsHolder d') rest
  rest_holders d' k =
      All-both (IsHolder w.dir) (λ q. IsOther a q × IsAlive w.workers q) (IsHolder d')
        (λ q h b n e.
          let (l, o) = h n e in
          k (record { number = n; job = q.job; process = q.process }) b.0 b.1 l o)
        rest (picked _ p i.holders).1
        (All-both _ _ _ (λ q x y. (x, y)) rest apart.0 (picked _ p (All-IsAlive w.workers)).1)

  pub moved-IsSound :
      (d' : Directory) (place : Place) (ns : List ℕ)
      → Keeps (alive_in w.workers) a.process w.dir d'
      → IsHolder d' (record a { place = place })
      → IsSound (record w { dir = d'; workers = moved a place rest; history = ns })
  moved-IsSound d' place ns k h = record {
    holders = (h, rest_holders d' k);
    distinct = apart;
    below = picked _ p i.below;
  }

  pub gone-IsSound :
      (d' : Directory)
      → Keeps (alive_in w.workers) a.process w.dir d'
      → IsSound (record w { dir = d'; workers = rest })
  gone-IsSound d' k = record {
    holders = rest_holders d' k;
    distinct = apart.1;
    below = (picked _ p i.below).1;
  }

module _ (w : World) (i : IsSound w) where
  pub started-IsSound :
      (job : String)
      → IsSound (record w {
        workers = record { process = w.fresh; job = job; place = idle } ∷ w.workers;
        fresh = suc w.fresh;
      })
  started-IsSound job = record {
    holders = ((λ n e. ground (arith, e)), i.holders);
    distinct = (All-map _ _ (λ q b e. ground (arith, b, e)) w.workers i.below, i.distinct);
    below = (omega arith, All-map _ _ (λ q b. omega (arith, b)) w.workers i.below);
  }

  pub cleared-IsSound :
      (e : Proof) (job : String)
      → IsSound (record w { dir = (reconcile (alive_in w.workers) e job w.dir).0 })
  cleared-IsSound e job = record {
    holders =
        All-both _ _ _
          (λ q h live n k.
            let (l, o) = h n k in
            reconcile-keeps (alive_in w.workers) w.dir e job
              (record { number = n; job = q.job; process = q.process }) live l o)
          w.workers i.holders (All-IsAlive w.workers);
    distinct = i.distinct;
    below = i.below;
  }
