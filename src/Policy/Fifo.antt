-- ===== src/Policy/Fifo.antt =====
-- internal/scheduler/fifo.
use distributed_task_queue_s.Env.Float.{Float64}
use distributed_task_queue_s.Domain.Task.{Task, submitted_at_millis}
use distributed_task_queue_s.Policy.Key.{Key, member_for}

module _ ⦃fl : Float64⦄ where
  unfoldable pub rank : Task → Key
  rank t = record { score = fl.of_int (submitted_at_millis t); member = member_for t }
