-- ===== src/Process/Worker.antt =====
-- execute of internal/worker/worker.go, and Budget and Once of internal/recovery/recovery.go.
-- Metrics and log lines are left out, and the work itself: it is the time between two clock
-- readings.
use distributed_task_queue_s.Prelude.{
  ℕ, suc, ◌/◌, negsuc, Bool, true, false, List, [], ◌∷◌, ℤ, pos, ◌-ℤ◌, ltb_ℤ, Text, if◌then◌else◌,
  not,
}
use distributed_task_queue_s.Domain.Time.{Time, sub}
use distributed_task_queue_s.Domain.Result
use distributed_task_queue_s.Domain.Result.{Result}
use distributed_task_queue_s.Env.Float.{Float64}
use distributed_task_queue_s.Env.Redis.{Redis}
use distributed_task_queue_s.Env.Codec.{Codec}
use distributed_task_queue_s.Process.World.{
  World, Answer, answer, err_fenced, err_other, map_answer,
}
use distributed_task_queue_s.Process.Finish.{
  ExecMessage, RetryOutcome, complete, retry_or_dead_letter,
}

-- Budget and retryBudget: a task without a budget of its own takes the configured one.
unfoldable pub retry_budget : ℤ → ℤ → ℤ
retry_budget configured task_max_retries =
    if ltb_ℤ (pos 0) task_max_retries then task_max_retries else configured

-- `d.Milliseconds()`, which rounds towards zero; the time between two readings is not negative.
unfoldable pub milliseconds : ℤ → ℤ
milliseconds (pos n) = pos (n / 1000000)
milliseconds (negsuc n) = pos 0 -ℤ pos (suc n / 1000000)

-- How a delivery ended.
pub data Ended : Type 0 where
  abandoned : Ended
  retried : RetryOutcome → Ended
  recorded : Bool → Ended

-- `drawn` is the next number of the generator, in [0, 1).
unfoldable pub roll : ⦃fl : Float64⦄ → fl.F → fl.F → Bool
roll ⦃fl⦄ p drawn =
    if not (fl.ltf (fl.of_int (pos 0)) p)
    then false
    else if not (fl.ltf p (fl.of_int (pos 1)))
    then true
    else fl.ltf drawn p

unfoldable pub result_of : ExecMessage → Text → Time → Time → Result
unfolding milliseconds sub
result_of msg consumer started finished = record {
  task_id = msg.task.id;
  attempt_id = msg.task.attempt_id;
  tenant_id = msg.task.tenant_id;
  outcome = Result.completed;
  priority = msg.task.priority;
  submitted_at = msg.task.submitted_at;
  dispatched_at = msg.dispatched_at;
  started_at = started;
  finished_at = finished;
  deadline = msg.task.deadline;
  exec_millis = msg.task.exec_millis;
  actual_exec_millis = milliseconds (sub finished started);
  retry_count = msg.task.retry_count;
  worker = consumer;
  error = [];
}

module _ ⦃fl : Float64⦄ ⦃redis : Redis⦄ ⦃codec : Codec⦄ where
  -- The clock readings of one delivery: start and end of the work, FailedAt, and the script's.
  pub record Clock : Type 0 where
    pub started : Time
    pub finished : Time
    pub failed_at : Time
    pub now : Time

  unfoldable pub execute :
      ℕ → ℤ → Text → Text → Bool → Bool → Clock → ExecMessage → World → World × Answer Ended
  unfolding retry_or_dead_letter complete result_of retry_budget map_answer
  execute max_len configured reason consumer app_failure abandon clock msg w =
      if abandon
      then (w, answer abandoned)
      else if app_failure
      then (let (w', a) =
            retry_or_dead_letter max_len msg.task (retry_budget configured msg.task.max_retries)
              reason msg.id clock.failed_at clock.now w in
          (w', map_answer (λ o. retried o.0) a))
      else (let (w', a) =
            complete max_len (result_of msg consumer clock.started clock.finished) msg.id clock.now
              w in
          (w', map_answer recorded a))

  -- The loop of Once, with the number handled so far; `clock` gives the k-th message's readings.
  unfoldable pub reclaim :
      ℕ → ℤ → Text → (ℕ → Clock) → ℕ → List ExecMessage → World → World × ℕ × Answer ℕ
  unfolding retry_or_dead_letter retry_budget
  reclaim max_len configured reason clock handled [] w = (w, handled, answer handled)
  reclaim max_len configured reason clock handled (msg ∷ msgs) w =
      let (w', a) =
        retry_or_dead_letter max_len msg.task (retry_budget configured msg.task.max_retries) reason
          msg.id (clock handled).failed_at (clock handled).now w in
      elim a [
        | answer o ↦ reclaim max_len configured reason clock (suc handled) msgs w'
        | err_fenced ↦ (w', handled, err_fenced)
        | err_other ↦ (w', handled, err_other)
      ]
