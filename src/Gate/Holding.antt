-- ===== src/Gate/Holding.antt =====
-- Which demands hold the GPU, under the updates of `self.demands` in deploy/llm-inference/gate.py.
use recursive_harness_builde.Prelude.{
  ℕ, ◌≡◌, refl, String, Option, none, some, Bool, true, false, ◌||◌, [], ◌∷◌, arith, lookup, insert,
  remove, string_eq,
}
use recursive_harness_builde.Gate.State.{Demand, Demands, is_holding}
use recursive_harness_builde.Gate.Demands.{Message, some_holding, begun}

abbrev found_holding : Option Demand → Bool
found_holding none = false
found_holding (some d) = is_holding d.phase

some_holding-lookup :
    (k : String) (ds : Demands) → found_holding (lookup k ds) ≡ true → some_holding ds ≡ true
unfolding lookup
some_holding-lookup k [] h = h
some_holding-lookup k ((j, d) ∷ ds) h = ground (arith, some_holding-lookup k ds)

some_holding-insert :
    (k : String) (d : Demand) (ds : Demands)
    → some_holding (insert k d ds) ≡ true
    → is_holding d.phase || some_holding ds ≡ true
unfolding insert
some_holding-insert k d [] h = h
some_holding-insert k d ((j, e) ∷ ds) h = ground (arith, some_holding-insert k d ds)

pub some_holding-remove :
    (k : String) (ds : Demands) → some_holding (remove k ds) ≡ true → some_holding ds ≡ true
unfolding remove
some_holding-remove k [] h = h
some_holding-remove k ((j, e) ∷ ds) h = ground (arith, some_holding-remove k ds)

begun_phase :
    (object t : ℕ) (m : Message) (o : Option Demand)
    → is_holding (begun object t m o).phase ≡ found_holding o
begun_phase object t m none = refl
begun_phase object t m (some d) = refl

-- A `begin` makes no demand a holder.
pub some_holding-begun :
    (object t : ℕ) (m : Message) (ds : Demands)
    → some_holding (insert m.job_id (begun object t m (lookup m.job_id ds)) ds) ≡ true
    → some_holding ds ≡ true
some_holding-begun object t m ds h = ground (
  arith,
  some_holding-insert m.job_id (begun object t m (lookup m.job_id ds)) ds,
  begun_phase object t m (lookup m.job_id ds),
  some_holding-lookup m.job_id ds,
)
