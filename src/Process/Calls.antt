-- ===== src/Process/Calls.antt =====
-- Methods of internal/broker/broker.go that schedulers call to take tasks in.
use distributed_task_queue_s.Prelude.{
  ℕ, ◌==◌, Bool, false, ◌||◌, none, some, List, [], ◌∷◌, ◌++◌, ℤ, Text, text_eq, is_some,
  if◌then◌else◌,
}
use distributed_task_queue_s.Domain.Task.{Task, submitted_at_millis}
use distributed_task_queue_s.Env.Float.{Float64}
use distributed_task_queue_s.Env.Redis.{Redis}
use distributed_task_queue_s.Env.Codec.{Codec}
use distributed_task_queue_s.Policy.Key.{Key}
use distributed_task_queue_s.Broker.Store.{Store}
use distributed_task_queue_s.Broker.Scripts.{Reply, reply, admit_script}
use distributed_task_queue_s.Process.World.{
  World, Answer, answer, err_fenced, err_other, map_answer, call,
}

pub record IngressMessage : Type 0 where
  pub id : Text
  pub task : Task

-- Whether a `map[string]bool` that is a list of its true keys has the key.
unfoldable pub has : Text → List Text → Bool
has id [] = false
has id (j ∷ js) = text_eq j id || has id js

module _ ⦃fl : Float64⦄ ⦃redis : Redis⦄ where
  open redis use {hget, xack}

  -- HMGET: the ids that a hash has as fields.
  unfoldable pub fields_of : {V : Type 0} → redis.Hash V → List Text → List Text
  fields_of h [] = []
  fields_of h (id ∷ ids) = if is_some (hget h id) then id ∷ fields_of h ids else fields_of h ids

  abbrev pub read_payloads : List Text → Store → Store × Reply (List Text)
  read_payloads ids s = (s, reply (fields_of s.payloads ids))

  abbrev pub read_done : List Text → Store → Store × Reply (List Text)
  read_done ids s = (s, reply (fields_of s.done ids))

  -- The keys of both replies; an error of either is one of the pipeline.
  unfoldable pub either_known : Answer (List Text) → Answer (List Text) → Answer (List Text)
  either_known (answer p) (answer d) = answer (p ++ d)
  either_known (answer p) err_fenced = err_other
  either_known (answer p) err_other = err_other
  either_known err_fenced d = err_other
  either_known err_other d = err_other

  -- The pipeline sends both commands, the payloads first; others may run in between.
  unfoldable pub known : List Text → World → World × Answer (List Text)
  unfolding call either_known fields_of
  known [] w = (w, answer [])
  known (id ∷ ids) w =
      let (w', p) = call (read_payloads (id ∷ ids)) w in
      let (w'', d) = call (read_done (id ∷ ids)) w' in (w'', either_known p d)

  unfoldable pub ack_all : List Text → Store → Store
  ack_all [] s = s
  ack_all (id ∷ ids) s = ack_all ids (record s { ingress = xack s.ingress id })

  unfoldable pub ack_ingress : List Text → World → World × Answer ℕ
  unfolding call ack_all
  ack_ingress [] w = (w, answer 0)
  ack_ingress (id ∷ ids) w = call (λ s. (ack_all (id ∷ ids) s, reply 0)) w

  unfoldable pub admit : ⦃codec : Codec⦄ → Task → Key → ℤ → World → World × Answer Bool
  unfolding call admit_script submitted_at_millis map_answer
  admit ⦃codec⦄ task key epoch w = elim (codec.marshal_task task) [
    | none ↦ (w, err_other)
    | some payload ↦
        let (w', a) = call (admit_script task.id key (submitted_at_millis task) payload epoch) w in
        (w', map_answer (λ n. n == 1) a)
  ]
