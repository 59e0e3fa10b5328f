-- ===== src/Gate/Requests.antt =====
-- deploy/llm-inference/gate.py: `admit` and `release_request` of `GateState`.
use recursive_harness_builde.Prelude.{
  ℕ, Bool, false, ◌&&◌, not, List, [], ◌∷◌, ◌++◌, ltb, leb, length, is_empty, erase, ◌==◌,
  if◌then◌else◌, nat_eq,
}
use recursive_harness_builde.Gate.State.{Gate, Config, concurrency_limit, is_opened, persist}

pub data Admission : Type 0 where
  admitted draining queue_full waiting : Admission

abbrev pub head_is : ℕ → List ℕ → Bool
head_is ticket [] = false
head_is ticket (t ∷ _) = t == ticket

abbrev pub tail : List ℕ → List ℕ
tail [] = []
tail (_ ∷ ts) = ts

module _ (cfg : Config) (ticket t : ℕ) (g : Gate) where
  has_room : Bool
  has_room = ltb (length g.state.active_ids) (concurrency_limit cfg)

  -- `admit` up to its first wait; `waiting` is the call that stays in the loop.
  unfoldable pub admit : Gate × Admission
  unfolding has_room
  admit =
      if not (is_opened g.state.mode)
      then (g, draining)
      else if has_room && is_empty g.state.queue
      then (persist t (record g.state { active_ids = ticket ∷ g.state.active_ids }), admitted)
      else if leb cfg.queue_limit (length g.state.queue)
      then (g, queue_full)
      else (persist t (record g.state { queue = g.state.queue ++ ticket ∷ [] }), waiting)

  -- One round of the loop of `admit`, after `condition.wait()` has returned.
  unfoldable pub admit_woken : Gate × Admission
  unfolding has_room
  admit_woken =
      if not (is_opened g.state.mode)
      then (persist t (record g.state { queue = erase ticket g.state.queue }), draining)
      else if has_room && head_is ticket g.state.queue
      then (
        persist t (record g.state {
          active_ids = ticket ∷ g.state.active_ids;
          queue = tail g.state.queue;
        }),
        admitted,
      )
      else (g, waiting)

unfoldable pub release_request : ℕ → ℕ → Gate → Gate
release_request ticket t g =
    persist t (record g.state { active_ids = erase ticket g.state.active_ids })
