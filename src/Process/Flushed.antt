-- ===== src/Process/Flushed.antt =====
-- A flush by Submit of internal/workload/producer.go that nothing disturbs.
use distributed_task_queue_s.Prelude.{
  ℕ, ◌+◌, ◌≡◌, refl, ◌∙◌, inl, inr, Bool, true, false, Option-cases, some, List, [], ◌∷◌, ◌++◌, map,
  append-nil, length, All, Text, is_some, get_or, arith,
}
use distributed_task_queue_s.Domain.Task.{Task}
use distributed_task_queue_s.Env.Float.{Float64}
use distributed_task_queue_s.Env.Redis.{Redis}
use distributed_task_queue_s.Env.Codec.{Codec}
use distributed_task_queue_s.Broker.Store.{Store}
use distributed_task_queue_s.Process.World.{
  World, Trip, Answer, answer, err_fenced, err_other, call, carry,
}
use distributed_task_queue_s.Process.Submit.{pipeline, marshal_all, submit_batch}
use distributed_task_queue_s.Process.Order.{Appended, submit_batch_order}
use distributed_task_queue_s.Process.Replay.{Replay, flush_batch}

module _ ⦃fl : Float64⦄ ⦃redis : Redis⦄ ⦃codec : Codec⦄ where
  open redis use {entries}

  abbrev pub Marshals : Task → Type 0
  Marshals t = is_some (codec.marshal_task t) ≡ true

  -- What encoding/json writes for a task that it can write.
  abbrev pub written : Task → Text
  written t = get_or (codec.marshal_task t) []

  marshal_all-written :
      (ts : List Task) → All Marshals ts → marshal_all 0 ts ≡ some (map written ts)
  unfolding marshal_all
  marshal_all-written [] h = refl
  marshal_all-written (t ∷ ts) h = elim (Option-cases (codec.marshal_task t)) [
    | inl e ↦ absurd (ground (arith, h.0, e))
    | inr (p, e) ↦ rw (marshal_all, e, marshal_all-written ts h.1) refl
  ]

  pipeline_quiet :
      (ps : List Text) (s : Store) → (pipeline 0 ps (record { store = s; trips = [] })).0.trips ≡ []
  unfolding pipeline call carry
  pipeline_quiet [] s = refl
  pipeline_quiet (p ∷ ps) s = pipeline_quiet ps (record s { ingress = redis.xadd s.ingress 0 p })

  submit_batch_quiet :
      (ts : List Task) (ps : List Text) (s : Store)
      → marshal_all 0 ts ≡ some ps
      → (submit_batch 0 ts (record { store = s; trips = [] })).0.trips ≡ []
  unfolding submit_batch
  submit_batch_quiet ts ps s e = rw (submit_batch, e) (pipeline_quiet ps s)

  module _ (limit : ℕ) (base : List Text) where
    -- What has been sent or waits in the batch are the tasks so far, in order.
    pub record Sent (ts : List Task) (r : Replay 0 limit) : Type 0 where
      pub quiet : r.world.trips ≡ []
      pub stream : entries r.world.store.ingress ++ map written r.batch ≡ base ++ map written ts
      pub count : r.submitted + length r.batch ≡ length ts
      pub marshals : All Marshals r.batch

    pub record Flushed (ts : List Task) (a : Replay 0 limit × Bool) : Type 0 where
      pub goes_on : a.1 ≡ true
      pub sent : Sent ts a.0
      pub empty : a.0.batch ≡ []

    pub flush_batch-Flushed :
        (ts : List Task) (r : Replay 0 limit) → Sent ts r → Flushed ts (flush_batch 0 limit r)
    unfolding flush_batch
    flush_batch-Flushed ts r h = by_batch r.batch r.world.trips h.quiet h.stream h.count h.marshals
      where
        s : Store
        s = r.world.store

        by_reply :
            (b : List Task) (x : World × Answer ℕ)
            → Appended s (map written b) x
            → x.0.trips ≡ []
            → entries s.ingress ++ map written b ≡ base ++ map written ts
            → r.submitted + length b ≡ length ts
            → Flushed ts (elim x.1 as (λ y. Replay 0 limit × Bool) [
              | answer n ↦
                  (record r { world = x.0; batch = []; submitted = r.submitted + length b }, true)
              | err_fenced ↦ (record r { world = x.0; batch = b }, false)
              | err_other ↦ (record r { world = x.0; batch = b }, false)
            ])
        by_reply b (w, answer n) a q st c = record {
          goes_on = refl;
          sent = record {
            quiet = q;
            stream = append-nil (entries w.store.ingress) ∙ a.stream ∙ st;
            count = omega (arith, c);
            marshals = tt;
          };
          empty = refl;
        }
        by_reply b (w, err_fenced) a q st c = cc
        by_reply b (w, err_other) a q st c = cc

        by_batch :
            (b : List Task) (trips : List Trip)
            → trips ≡ []
            → entries s.ingress ++ map written b ≡ base ++ map written ts
            → r.submitted + length b ≡ length ts
            → All Marshals b
            → Flushed ts (
                flush_batch 0 limit
                  (record r { world = record { store = s; trips = trips }; batch = b }))
        by_batch b (x ∷ xs) q st c m = cc
        by_batch [] [] q st c m = record {
          goes_on = refl;
          sent = record { quiet = refl; stream = st; count = c; marshals = tt };
          empty = refl;
        }
        by_batch (t ∷ b) [] q st c m =
            let e = marshal_all-written (t ∷ b) m in
            by_reply (t ∷ b) (submit_batch 0 (t ∷ b) (record { store = s; trips = [] }))
              (submit_batch_order (t ∷ b) (map written (t ∷ b)) s e)
              (submit_batch_quiet (t ∷ b) (map written (t ∷ b)) s e) st c
