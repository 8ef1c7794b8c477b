-- ===== src/Process/Acked.antt =====
-- The acknowledgements of admitBatch, internal/scheduler/engine.go.
use distributed_task_queue_s.Prelude.{ℕ, ◌≡◌, ◌⊎◌, false, List, length, Text, if◌then◌else◌}
use distributed_task_queue_s.Env.Float.{Float64}
use distributed_task_queue_s.Env.Redis.{Redis}
use distributed_task_queue_s.Env.Codec.{Codec}
use distributed_task_queue_s.Policy.Interface.{Policy}
use distributed_task_queue_s.Broker.Store.{Store}
use distributed_task_queue_s.System.Steps.{Steps}
use distributed_task_queue_s.Process.World.{World, Answer, answer}
use distributed_task_queue_s.Process.Calls.{IngressMessage, has}
use distributed_task_queue_s.Process.Settled.{Taken}

module _ ⦃fl : Float64⦄ ⦃redis : Redis⦄ where
  open redis use {unacked}

  -- `t` is `s` after an acknowledgement of exactly these entries.
  pub record IsAcked (ids : List Text) (s t : Store) : Type 0 where
    pub only : t ≡ record s { ingress = t.ingress }
    pub each :
        (id : Text) → unacked t.ingress id ≡ (if has id ids then false else unacked s.ingress id)

  -- What an acknowledgement leaves behind: it has reached the store `reached`, or has been lost.
  record Acks (ids : List Text) (w : World) (r : World × Answer ℕ) : Type 0 where
    reached : Store
    steps : Steps w.store reached
    after : (r.0.store ≡ reached) ⊎ IsAcked ids reached r.0.store
    answered : (n : ℕ) → r.1 ≡ answer n → IsAcked ids reached r.0.store

  module _ ⦃codec : Codec⦄ (pol : Policy) where
    -- What admitBatch leaves behind: the entries `ids`, and the store that the acknowledgement
    -- reached.
    pub record Batched (w : World) (ms : List IngressMessage) (r : pol.State × World × Answer ℕ)
        : Type 0 where
      pub ids : List Text
      pub reached : Store
      pub steps : Steps w.store reached
      pub taken : Taken reached ms ids
      pub after : (r.1.store ≡ reached) ⊎ IsAcked ids reached r.1.store
      pub full : (n : ℕ) → r.2 ≡ answer n → (length ids ≡ length ms) × IsAcked ids reached r.1.store
