-- ===== src/Env/Codec.antt =====
-- encoding/json on the three records of internal/domain, as parameters: nothing is assumed of them.
use distributed_task_queue_s.Prelude.{Option, Text}
use distributed_task_queue_s.Domain.Task.{Task}
use distributed_task_queue_s.Domain.Result.{Result, DeadLetter}

-- `none` is an error: marshalling fails on a time outside the years 0 to 9999.
pub record Codec : Type 0 where
  pub marshal_task : Task → Option Text
  pub unmarshal_task : Text → Option Task
  pub marshal_result : Result → Option Text
  pub marshal_dead_letter : DeadLetter → Option Text
  pub unmarshal_result : Text → Option Result
  pub unmarshal_dead_letter : Text → Option DeadLetter
