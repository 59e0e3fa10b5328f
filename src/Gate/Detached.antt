-- ===== src/Gate/Detached.antt =====
-- deploy/llm-inference/gate.py: an `acquired` call whose demand was released, or begun anew, while
-- it waited.
use recursive_harness_builde.Prelude.{
  ℕ, ◌≡◌, ◌≢◌, some, Bool, true, false, arith, lookup, string_eq, nat_eq, Option-cases, inl, inr,
}
use recursive_harness_builde.Gate.State.{
  Gate, Demand, Mode, Phase, is_waiting_external, waiting_for_gpu,
}
use recursive_harness_builde.Gate.Demands.{
  Message, done, waits, acquired, acquired_round, needs_recovery,
}

-- An `acquired` call whose demand was released, or begun anew, while it waited succeeds once the GPU
-- is free: it moves the gate to EXTERNAL_HOLD and marks no demand as a holder, whatever demand the job
-- has by then. From there the `acquired` call of any demand that still waits for the GPU, with the
-- right lock, only waits.
pub detached_acquire :
    (expired : Bool) (object t t' dev ino : ℕ) (m m' : Message) (g : Gate) (d : Demand)
    → is_waiting_external g.state.phase ≡ true
    → needs_recovery g.state ≡ false
    → ((e : Demand) → lookup m.job_id g.state.demands ≡ some e → e.object ≢ object)
    → lookup m'.job_id g.state.demands ≡ some d
    → d.phase ≡ waiting_for_gpu
    → m'.lock_dev ≡ some dev
    → m'.lock_ino ≡ some ino
    → g.state.mode ≡ Mode.draining
    → ((acquired_round expired object t m g).1 ≡ done)
      × ((acquired_round expired object t m g).0.state.phase ≡ Phase.external_hold)
      × ((acquired_round expired object t m g).0.state.demands ≡ g.state.demands)
      × ((acquired dev ino t' m' (acquired_round expired object t m g).0).1 ≡ waits)
unfolding acquired_round acquired
detached_acquire expired object t t' dev ino m m' g d e r away found w ld li o =
    elim (Option-cases (lookup m.job_id g.state.demands)) [
      | inl gone ↦ ground arith
      | inr (x, here) ↦ ground (arith, away x here)
    ]
