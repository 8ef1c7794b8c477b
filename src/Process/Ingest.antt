-- ===== src/Process/Ingest.antt =====
-- admitBatch of internal/scheduler/engine.go. Metrics and log lines are left out.
use distributed_task_queue_s.Prelude.{ℕ, true, false, Option, none, some, List, [], ◌∷◌, ℤ, Text}
use distributed_task_queue_s.Domain.Task.{validate}
use distributed_task_queue_s.Env.Float.{Float64}
use distributed_task_queue_s.Env.Redis.{Redis}
use distributed_task_queue_s.Env.Codec.{Codec}
use distributed_task_queue_s.Policy.Interface.{Policy}
use distributed_task_queue_s.Process.World.{World, Answer, answer, err_fenced, err_other}
use distributed_task_queue_s.Process.Calls.{IngressMessage, has, known, admit, ack_ingress}

abbrev pub task_ids : List IngressMessage → List Text
task_ids [] = []
task_ids (m ∷ ms) = m.task.id ∷ task_ids ms

-- A failed pre-check leaves no task known.
unfoldable pub or_empty : Answer (List Text) → List Text
or_empty (answer ids) = ids
or_empty err_fenced = []
or_empty err_other = []

module _ ⦃fl : Float64⦄ ⦃redis : Redis⦄ ⦃codec : Codec⦄ (pol : Policy) where
  -- Where the loop of admitBatch stops: the policy's clocks, the entries to acknowledge, and the
  -- error of Admit, if any.
  pub record Intake : Type 0 where
    pub clocks : pol.State
    pub world : World
    pub acks : List Text
    pub error : Option (Answer ℕ)

  unfoldable pub push_ack : Text → Intake → Intake
  push_ack id r = record r { acks = id ∷ r.acks }

  -- `for _, m := range msgs`.
  unfoldable pub admit_loop : List Text → ℤ → List IngressMessage → pol.State → World → Intake
  unfolding push_ack
  admit_loop seen epoch [] p w = record { clocks = p; world = w; acks = []; error = none }
  admit_loop seen epoch (m ∷ ms) p w = elim (has m.task.id seen) [
    | true ↦ push_ack m.id (admit_loop seen epoch ms p w)
    | false ↦ elim (validate m.task) [
      | some e ↦ push_ack m.id (admit_loop seen epoch ms p w)
      | none ↦
          let (key, p') = pol.rank p m.task in
          let (w', a) = admit m.task key epoch w in
          elim a [
            | answer b ↦ push_ack m.id (admit_loop seen epoch ms p' w')
            | err_fenced ↦ record { clocks = p'; world = w'; acks = []; error = some err_fenced }
            | err_other ↦ record { clocks = p'; world = w'; acks = []; error = some err_other }
          ]
    ]
  ]

  -- admitBatch up to the acknowledgement.
  unfoldable pub take_in : List IngressMessage → ℤ → pol.State → World → Intake
  unfolding admit_loop or_empty
  take_in msgs epoch p w =
      let (w', k) = known (task_ids msgs) w in admit_loop (or_empty k) epoch msgs p w'

  -- The error of Admit comes first; joined with one of the acknowledgement it is still ErrFenced.
  unfoldable pub admit_batch :
      List IngressMessage → ℤ → pol.State → World → pol.State × World × Answer ℕ
  unfolding take_in ack_ingress
  admit_batch msgs epoch p w =
      let r = take_in msgs epoch p w in
      let (w', a) = ack_ingress r.acks r.world in
      (r.clocks, w', elim r.error [ none ↦ a | some e ↦ e ])
