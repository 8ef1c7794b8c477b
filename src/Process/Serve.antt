-- ===== src/Process/Serve.antt =====
-- One pass of dispatchLoop of internal/scheduler/engine.go, and how a term saves its clocks. A pass
-- under a cancelled context, which stops the loop, is left out, and so are metrics and log lines.
use distributed_task_queue_s.Prelude.{ℕ, Option, none, some, List, [], ◌∷◌, ℤ, Text}
use distributed_task_queue_s.Domain.Time.{Time, unix_milli}
use distributed_task_queue_s.Domain.Task.{Task}
use distributed_task_queue_s.Env.Float.{Float64}
use distributed_task_queue_s.Env.Redis.{Redis}
use distributed_task_queue_s.Env.Codec.{Codec}
use distributed_task_queue_s.Policy.Key.{Key}
use distributed_task_queue_s.Policy.Interface.{Policy}
use distributed_task_queue_s.Broker.Scripts.{Triple, dispatch_script, save_state_script}
use distributed_task_queue_s.Process.World.{World, Answer, answer, err_fenced, err_other, call}

-- What dispatchLoop does next.
pub data Turn : Type 0 where
  stop_fenced idle again : Turn

module _ ⦃fl : Float64⦄ ⦃redis : Redis⦄ where
  pub record Dispatched : Type 0 where
    pub key : Key
    pub task : Task

  unfoldable pub save_scheduler_state : List (Text × Text) → ℤ → World → World × Answer ℕ
  unfolding call save_state_script
  save_scheduler_state [] epoch w = (w, answer 0)
  save_scheduler_state (e ∷ state) epoch w = call (save_state_script (e ∷ state) epoch) w

  unfoldable pub flush_state : (pol : Policy) → pol.State → ℤ → World → World × Answer ℕ
  unfolding save_scheduler_state
  flush_state pol p epoch w = save_scheduler_state (pol.state p) epoch w

  module _ ⦃codec : Codec⦄ where
    -- The loop over the reply. A score parses back to the number it was printed from.
    unfoldable pub parse_reply : List Triple → Option (List Dispatched)
    parse_reply [] = some []
    parse_reply ((key, payload) ∷ raw) = elim (codec.unmarshal_task payload) [
      | none ↦ none
      | some task ↦ elim (parse_reply raw) [
        | none ↦ none
        | some out ↦ some (record { key = key; task = task } ∷ out)
      ]
    ]

    unfoldable pub parsed : Answer (List Triple) → Answer (List Dispatched)
    unfolding parse_reply
    parsed (answer raw) = elim (parse_reply raw) [ none ↦ err_other | some out ↦ answer out ]
    parsed err_fenced = err_fenced
    parsed err_other = err_other

    unfoldable pub dispatch : ℕ → ℕ → Time → ℕ → ℤ → World → World × Answer (List Dispatched)
    unfolding call dispatch_script parsed unix_milli
    dispatch max max_in_flight now max_len epoch w =
        let (w', a) = call (dispatch_script max max_in_flight (unix_milli now) max_len epoch) w in
        (w', parsed a)

    unfoldable pub notify_all : (pol : Policy) → pol.State → List Dispatched → pol.State
    notify_all pol p [] = p
    notify_all pol p (d ∷ ds) = notify_all pol (pol.notify p d.key) ds

    -- With nothing dispatched, or an error, the loop sleeps before its next pass.
    unfoldable pub after_dispatch :
        (pol : Policy) → pol.State → World → Answer (List Dispatched) → pol.State × World × Turn
    unfolding notify_all
    after_dispatch pol p w (answer []) = (p, w, idle)
    after_dispatch pol p w (answer (d ∷ ds)) = (notify_all pol p (d ∷ ds), w, again)
    after_dispatch pol p w err_fenced = (p, w, stop_fenced)
    after_dispatch pol p w err_other = (p, w, idle)

    unfoldable pub dispatch_pass :
        (pol : Policy) → ℕ → ℕ → Time → ℕ → ℤ → pol.State → World → pol.State × World × Turn
    unfolding dispatch after_dispatch
    dispatch_pass pol batch max_in_flight now max_len epoch p w =
        let (w', a) = dispatch batch max_in_flight now max_len epoch w in after_dispatch pol p w' a
