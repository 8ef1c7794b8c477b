-- ===== src/Domain/Task.antt =====
-- internal/domain/task.go.
use distributed_task_queue_s.Prelude.{
  ℤ, pos, ltb_ℤ, Text, [], text_eq, Option, none, some, ◌||◌, if◌then◌else◌,
}
use distributed_task_queue_s.Domain.Time.{Time, is_zero, unix_milli}

pub record Task : Type 0 where
  pub id : Text
  pub tenant_id : Text
  pub submitted_at : Time
  pub exec_millis : ℤ
  pub priority : ℤ
  pub deadline : Time
  pub retry_count : ℤ
  pub max_retries : ℤ
  pub attempt_id : Text

abbrev pub max_priority : ℤ
max_priority = pos 255

-- The reasons that wrap ErrInvalidTask.
pub data InvalidTask : Type 0 where
  empty_id empty_tenant_id zero_submitted_at negative_exec priority_out_of_range : InvalidTask
  negative_max_retries negative_retry_count : InvalidTask

-- `none` is a nil error.
unfoldable pub validate : Task → Option InvalidTask
validate t =
    if text_eq t.id []
    then some empty_id
    else if text_eq t.tenant_id []
    then some empty_tenant_id
    else if is_zero t.submitted_at
    then some zero_submitted_at
    else if ltb_ℤ t.exec_millis (pos 0)
    then some negative_exec
    else if ltb_ℤ t.priority (pos 0) || ltb_ℤ max_priority t.priority
    then some priority_out_of_range
    else if ltb_ℤ t.max_retries (pos 0)
    then some negative_max_retries
    else if ltb_ℤ t.retry_count (pos 0)
    then some negative_retry_count
    else none

unfoldable pub submitted_at_millis : Task → ℤ
submitted_at_millis t = unix_milli t.submitted_at

-- Zero stands for no deadline.
unfoldable pub deadline_millis : Task → ℤ
deadline_millis t = if is_zero t.deadline then pos 0 else unix_milli t.deadline
