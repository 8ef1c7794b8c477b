-- ===== src/Domain/Validation.antt =====
-- What Validate of internal/domain/task.go accepts.
use distributed_task_queue_s.Prelude.{pos, ◌≤ℤ◌, ◌≡◌, ◌≢◌, ◌↔◌, none, false, [], arith, text_eq_iff}
use distributed_task_queue_s.Domain.Time.{is_zero}
use distributed_task_queue_s.Domain.Task.{Task, max_priority, validate}

-- The conditions that a structurally usable task meets.
pub record IsUsable (t : Task) : Type 0 where
  pub named : t.id ≢ []
  pub owned : t.tenant_id ≢ []
  pub stamped : is_zero t.submitted_at ≡ false
  pub exec : pos 0 ≤ℤ t.exec_millis
  pub priority_low : pos 0 ≤ℤ t.priority
  pub priority_high : t.priority ≤ℤ max_priority
  pub max_retries : pos 0 ≤ℤ t.max_retries
  pub retry_count : pos 0 ≤ℤ t.retry_count

validate-IsUsable : (t : Task) → validate t ≡ none → IsUsable t
unfolding validate
validate-IsUsable t h = ground (arith, text_eq_iff t.id [], text_eq_iff t.tenant_id [])

IsUsable-validate : (t : Task) → IsUsable t → validate t ≡ none
unfolding validate
IsUsable-validate t h = ground (arith, text_eq_iff t.id [], text_eq_iff t.tenant_id [])

-- Validate accepts a task exactly when its names are not empty, its submission time is set, its
-- priority lies in 0..255 and its three counts are not negative.
pub validate_iff : (t : Task) → (validate t ≡ none) ↔ IsUsable t
validate_iff t = (validate-IsUsable t, IsUsable-validate t)
