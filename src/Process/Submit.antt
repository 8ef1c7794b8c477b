-- ===== src/Process/Submit.antt =====
-- Submit and SubmitBatch of internal/broker/broker.go. A pipeline is a sequence of calls: Redis may
-- serve other clients between its commands.
use distributed_task_queue_s.Prelude.{ℕ, Option, none, some, List, [], ◌∷◌, Text}
use distributed_task_queue_s.Domain.Task.{Task}
use distributed_task_queue_s.Env.Float.{Float64}
use distributed_task_queue_s.Env.Redis.{Redis}
use distributed_task_queue_s.Env.Codec.{Codec}
use distributed_task_queue_s.Broker.Store.{Store}
use distributed_task_queue_s.Broker.Scripts.{Reply, reply}
use distributed_task_queue_s.Process.World.{World, Answer, answer, err_fenced, err_other, call}

module _ ⦃fl : Float64⦄ ⦃redis : Redis⦄ (max_len : ℕ) where
  open redis use {entries, xadd}

  -- XADD to the ingress stream.
  abbrev pub adding : Text → Store → Store × Reply ℕ
  adding payload s = (record s { ingress = xadd s.ingress max_len payload }, reply 0)

  unfoldable pub submit : ⦃codec : Codec⦄ → Task → World → World × Answer ℕ
  unfolding call
  submit ⦃codec⦄ t w = elim (codec.marshal_task t) [
    | none ↦ (w, err_other)
    | some payload ↦ call (adding payload) w
  ]

  unfoldable pub marshal_all : ⦃codec : Codec⦄ → List Task → Option (List Text)
  marshal_all ⦃codec⦄ [] = some []
  marshal_all ⦃codec⦄ (t ∷ ts) = elim (codec.marshal_task t) [
    | none ↦ none
    | some payload ↦ elim (marshal_all ts) [
      | none ↦ none
      | some payloads ↦ some (payload ∷ payloads)
    ]
  ]

  -- The first error of two calls, if any.
  unfoldable pub both : Answer ℕ → Answer ℕ → Answer ℕ
  both (answer n) a = a
  both err_fenced a = err_fenced
  both err_other a = err_other

  -- A pipeline is sent whole, whatever becomes of its first commands.
  unfoldable pub pipeline : List Text → World → World × Answer ℕ
  unfolding call both
  pipeline [] w = (w, answer 0)
  pipeline (payload ∷ payloads) w =
      let (w', a) = call (adding payload) w in
      let (w'', b) = pipeline payloads w' in (w'', both a b)

  unfoldable pub submit_batch : ⦃codec : Codec⦄ → List Task → World → World × Answer ℕ
  unfolding pipeline marshal_all
  submit_batch ⦃codec⦄ ts w = elim (marshal_all ts) [
    | none ↦ (w, err_other)
    | some payloads ↦ pipeline payloads w
  ]
