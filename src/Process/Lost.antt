-- ===== src/Process/Lost.antt =====
-- A task that every delivery loses: internal/recovery retries it until its budget is spent.
use distributed_task_queue_s.Prelude.{
  ℕ, zero, suc, ◌≡◌, ◌≢◌, true, false, Option, none, some, is_some, List, All, ℤ, Text,
}
use distributed_task_queue_s.Domain.Time.{Time}
use distributed_task_queue_s.Domain.Task.{Task}
use distributed_task_queue_s.Env.Float.{Float64}
use distributed_task_queue_s.Env.Redis.{Redis}
use distributed_task_queue_s.Env.Codec.{Codec}
use distributed_task_queue_s.Broker.Store.{Store}
use distributed_task_queue_s.Broker.Cases.{is_done}
use distributed_task_queue_s.Process.World.{
  World, Trip, arrives, Answer, answer, err_fenced, err_other,
}
use distributed_task_queue_s.Process.Finish.{
  RetryOutcome, already_terminal, redelivered, dead_lettered, next_attempt, is_dead, letter,
  retry_or_dead_letter,
}
use distributed_task_queue_s.Process.Worker.{retry_budget}

-- How one delivery is given back: the arguments of RetryOrDeadLetter.
pub record Loss : Type 0 where
  pub max_len : ℕ
  pub reason : Text
  pub msg : Text
  pub failed_at : Time
  pub now : Time

module _ ⦃fl : Float64⦄ ⦃redis : Redis⦄ where
  -- No request and no reply is lost; others may still run before each call.
  abbrev pub AllArrive : List Trip → Type 0
  AllArrive = All (λ t. t.fate ≡ arrives)

  module _ ⦃codec : Codec⦄ where
    -- Each delivery that is redelivered is lost again, at most `fuel` times. `none`: the fuel is
    -- spent, or a call failed.
    unfoldable pub lose : ℕ → ℤ → (ℕ → Loss) → Task → World → World × Option RetryOutcome
    lose zero configured losses task w = (w, none)
    lose (suc n) configured losses task w =
        let loss = losses n in
        let (w', a) =
          retry_or_dead_letter loss.max_len task (retry_budget configured task.max_retries)
            loss.reason loss.msg loss.failed_at loss.now w in
        elim a [
          | answer (redelivered, next) ↦ lose n configured losses next w'
          | answer (o, next) ↦ (w', some o)
          | err_fenced ↦ (w', none)
          | err_other ↦ (w', none)
        ]

    -- encoding/json writes the attempts of the task and their dead letters: no time lies outside the
    -- years 0 to 9999.
    pub record Marshals (task : Task) (losses : ℕ → Loss) : Type 0 where
      pub attempts :
          (u : Task)
          → u.submitted_at ≡ task.submitted_at
          → u.deadline ≡ task.deadline
          → is_some (codec.marshal_task u) ≡ true
      pub letters :
          (u : Task) (n : ℕ)
          → u.submitted_at ≡ task.submitted_at
          → u.deadline ≡ task.deadline
          → is_some (codec.marshal_dead_letter (letter u (losses n).reason (losses n).failed_at))
            ≡ true

    -- What giving a delivery back leads to when nothing is lost.
    abbrev Handed : Task → ℤ → World × Answer (RetryOutcome × Task) → Type 0
    Handed task budget (w, answer (redelivered, u)) =
        AllArrive w.trips × (u ≡ next_attempt task budget) × (is_dead task budget ≡ false)
    Handed task budget (w, answer (already_terminal, u)) = is_done w.store task.id ≡ true
    Handed task budget (w, answer (dead_lettered, u)) = is_done w.store task.id ≡ true
    Handed task budget (w, err_fenced) = zero ≡ suc zero
    Handed task budget (w, err_other) = zero ≡ suc zero

    -- The task has ended.
    abbrev pub Ended : Text → World × Option RetryOutcome → Type 0
    Ended id (w, none) = zero ≡ suc zero
    Ended id (w, some o) = (o ≢ redelivered) × (is_done w.store id ≡ true)
