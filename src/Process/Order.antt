-- ===== src/Process/Order.antt =====
-- The order of internal/broker's ingress stream.
use distributed_task_queue_s.Prelude.{
  ℕ, ◌≡◌, refl, ◌∙◌, ap, sym, some, List, [], ◌∷◌, ◌++◌, append-nil, append_assoc, Text,
}
use distributed_task_queue_s.Domain.Task.{Task}
use distributed_task_queue_s.Env.Float.{Float64}
use distributed_task_queue_s.Env.Redis.{Redis}
use distributed_task_queue_s.Env.Codec.{Codec}
use distributed_task_queue_s.Broker.Store.{Store}
use distributed_task_queue_s.Process.World.{World, Answer, answer, call, carry, answer_of}
use distributed_task_queue_s.Process.Submit.{marshal_all, pipeline, both, submit_batch}

module _ ⦃fl : Float64⦄ ⦃redis : Redis⦄ where
  open redis use {entries}

  -- The stream has exactly the payloads behind what it had.
  pub record Appended (s : Store) (payloads : List Text) (r : World × Answer ℕ) : Type 0 where
    pub stream : entries r.0.store.ingress ≡ entries s.ingress ++ payloads
    pub succeeds : r.1 ≡ answer 0

  pipeline-Appended :
      (payloads : List Text) (s : Store)
      → Appended s payloads (pipeline 0 payloads (record { store = s; trips = [] }))
  unfolding pipeline call carry answer_of both
  pipeline-Appended [] s = record { stream = sym (append-nil (entries s.ingress)); succeeds = refl }
  pipeline-Appended (p ∷ payloads) s =
      let h = pipeline-Appended payloads (record s { ingress = redis.xadd s.ingress 0 p }) in
      record {
        stream =
            h.stream
            ∙ ap (λ e. e ++ payloads) (redis.entries-xadd s.ingress p)
            ∙ append_assoc (entries s.ingress) (p ∷ []) payloads;
        succeeds = h.succeeds;
      }

  -- Without losses or other clients, on a stream that is not trimmed, SubmitBatch appends the
  -- payloads of its tasks in their order and answers without an error, if every task marshals.
  pub submit_batch_order :
      ⦃codec : Codec⦄
      → (ts : List Task) (payloads : List Text) (s : Store) → marshal_all 0 ts ≡ some payloads
      → Appended s payloads (submit_batch 0 ts (record { store = s; trips = [] }))
  unfolding submit_batch
  submit_batch_order ts payloads s e = rw (submit_batch, e) (pipeline-Appended payloads s)
