-- ===== src/Tests/Wire.antt =====
-- A codec for the tests: a task is written as its id and read back as the sample.
use distributed_task_queue_s.Prelude.{none, some}
use distributed_task_queue_s.Env.Codec.{Codec}
use distributed_task_queue_s.Tests.Samples.{small}

instance abbrev pub wire : Codec
wire = record {
  marshal_task = λ t. some t.id;
  unmarshal_task = λ p. some small;
  marshal_result = λ r. some r.task_id;
  marshal_dead_letter = λ d. some d.task.id;
  unmarshal_result = λ p. none;
  unmarshal_dead_letter = λ p. none;
}
