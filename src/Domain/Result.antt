-- ===== src/Domain/Result.antt =====
-- internal/domain/result.go.
use distributed_task_queue_s.Prelude.{ℤ, Text, Bool, false, if◌then◌else◌}
use distributed_task_queue_s.Domain.Time.{Time, is_zero, sub, after}
use distributed_task_queue_s.Domain.Task.{Task}

pub data Outcome : Type 0 where
  completed failed dead_lettered : Outcome

pub record Result : Type 0 where
  pub task_id : Text
  pub attempt_id : Text
  pub tenant_id : Text
  pub outcome : Outcome
  pub priority : ℤ
  pub submitted_at : Time
  pub dispatched_at : Time
  pub started_at : Time
  pub finished_at : Time
  pub deadline : Time
  pub exec_millis : ℤ
  pub actual_exec_millis : ℤ
  pub retry_count : ℤ
  pub worker : Text
  pub error : Text

unfoldable pub queue_wait : Result → ℤ
queue_wait r = sub r.started_at r.submitted_at

unfoldable pub latency : Result → ℤ
latency r = sub r.finished_at r.submitted_at

unfoldable pub missed_deadline : Result → Bool
missed_deadline r = if is_zero r.deadline then false else after r.finished_at r.deadline

pub record DeadLetter : Type 0 where
  pub task : Task
  pub reason : Text
  pub attempts : ℤ
  pub last_attempt : Text
  pub failed_at : Time
