-- ===== src/Tests/Samples.antt =====
-- Two tasks, as producers submit them.
use distributed_task_queue_s.Prelude.{[], ◌∷◌, Text, pos}
use distributed_task_queue_s.Domain.Task.{Task}

abbrev pub tenant_a : Text
tenant_a = b'a' ∷ []

-- Submitted at 2000 ms and due at 9000 ms, 5 ms of work.
abbrev pub small : Task
small = record {
  id = b't' ∷ b'1' ∷ [];
  tenant_id = tenant_a;
  submitted_at = pos 2000000000;
  exec_millis = pos 5;
  priority = pos 3;
  deadline = pos 9000000000;
  retry_count = pos 0;
  max_retries = pos 2;
  attempt_id = b't' ∷ b'1' ∷ b'#' ∷ b'0' ∷ [];
}

-- Submitted 1 ms later at a higher priority, without a deadline of its own.
abbrev pub urgent : Task
urgent = record small {
  id = b't' ∷ b'2' ∷ [];
  submitted_at = pos 2001000000;
  priority = pos 7;
  deadline = pos 0;
}
