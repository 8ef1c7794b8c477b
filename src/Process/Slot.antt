-- ===== src/Process/Slot.antt =====
-- slotLoop of internal/worker/worker.go: a round reads deliveries and executes them one by one. A
-- failed execution is logged; the loop ends if its context has ended by then.
use distributed_task_queue_s.Prelude.{
  ℕ, suc, Bool, true, false, Option, List, [], ◌∷◌, ℤ, Text, if◌then◌else◌,
}
use distributed_task_queue_s.Env.Float.{Float64}
use distributed_task_queue_s.Env.Redis.{Redis}
use distributed_task_queue_s.Env.Codec.{Codec}
use distributed_task_queue_s.Broker.Store.{ExecEntry}
use distributed_task_queue_s.Process.World.{World, Answer, answer, err_fenced, err_other}
use distributed_task_queue_s.Process.Finish.{ExecMessage}
use distributed_task_queue_s.Process.Worker.{Clock, Ended, execute, roll}
use distributed_task_queue_s.Process.Reads.{read_exec}

module _ ⦃fl : Float64⦄ ⦃redis : Redis⦄ ⦃codec : Codec⦄ where
  -- What one execution meets: its clock readings, the two numbers drawn, and whether the execution
  -- context has ended by its end.
  pub record Chance : Type 0 where
    pub clock : Clock
    pub failure_draw : fl.F
    pub abandon_draw : fl.F
    pub stopped : Bool

  module _ (max_len : ℕ) (configured : ℤ) (reason consumer : Text)
      (fail_rate abandon_rate : fl.F) where
    unfoldable pub execute_rolled : Chance → ExecMessage → World → World × Answer Ended
    unfolding execute roll
    execute_rolled c msg w =
        execute max_len configured reason consumer (roll fail_rate c.failure_draw)
          (roll abandon_rate c.abandon_draw) c.clock msg w

    -- False if the loop ends; `chance` is for the k-th message.
    unfoldable pub execute_all : (ℕ → Chance) → ℕ → List ExecMessage → World → World × Bool
    unfolding execute_rolled
    execute_all chance k [] w = (w, true)
    execute_all chance k (msg ∷ msgs) w =
        let (w', a) = execute_rolled (chance k) msg w in
        let rest = execute_all chance (suc k) msgs w' in
        elim a [
          | answer e ↦ rest
          | err_fenced ↦ if (chance k).stopped then (w', false) else rest
          | err_other ↦ if (chance k).stopped then (w', false) else rest
        ]

    -- A read that fails, in full or at a malformed entry, leaves its messages unacknowledged.
    unfoldable pub slot_round :
        (ℕ → Chance) → Option (List (Text × ExecEntry)) → World → World × Bool
    unfolding read_exec execute_all
    slot_round chance read w =
        let (msgs, bad) = read_exec read in if bad then (w, true) else execute_all chance 0 msgs w
