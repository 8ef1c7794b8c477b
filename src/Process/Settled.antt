-- ===== src/Process/Settled.antt =====
-- What admitBatch of internal/scheduler/engine.go may acknowledge.
use distributed_task_queue_s.Prelude.{
  ℕ, ◌==◌, zero, suc, ◌≡◌, refl, ◌⊎◌, inl, inr, Bool, true, Bool-cases, Option-cases, Option, none,
  some, List, [], ◌∷◌, length, ℤ, Text, is_some, ap,
}
use distributed_task_queue_s.Domain.Task.{Task, InvalidTask, validate, submitted_at_millis}
use distributed_task_queue_s.Env.Float.{Float64}
use distributed_task_queue_s.Env.Redis.{Redis}
use distributed_task_queue_s.Env.Codec.{Codec}
use distributed_task_queue_s.Policy.Key.{Key}
use distributed_task_queue_s.Policy.Interface.{Policy}
use distributed_task_queue_s.Broker.Store.{Store}
use distributed_task_queue_s.Broker.Scripts.{Reply, reply, fenced_error, admit_body, admit_script}
use distributed_task_queue_s.Broker.Guard.{guarded_cases}
use distributed_task_queue_s.Broker.Cases.{is_done}
use distributed_task_queue_s.System.Steps.{Steps, done, more, Steps-trans}
use distributed_task_queue_s.System.Steps
use distributed_task_queue_s.System.Books.{books}
use distributed_task_queue_s.System.Once.{Known, Steps-Known, has-hset_self}
use distributed_task_queue_s.Process.World.{
  World, Answer, answer, err_fenced, err_other, answer_of, map_answer, call, call_cases,
}
use distributed_task_queue_s.Process.Calls.{IngressMessage, has, known, admit}
use distributed_task_queue_s.Process.Precheck.{known-Reads}
use distributed_task_queue_s.Process.Ingest.{
  Intake, task_ids, push_ack, admit_loop, or_empty, take_in,
}

module _ ⦃fl : Float64⦄ ⦃redis : Redis⦄ where
  -- The broker knows the task, or the task is one that Validate rejects.
  abbrev pub Sound : Store → IngressMessage → Type 0
  Sound t m = Known (books t) m.task.id ⊎ ((e : InvalidTask) × (validate m.task ≡ some e))

  -- The acknowledged entries are the first ones of the batch, each for a sound message.
  pub data Taken (t : Store) : List IngressMessage → List Text → Type 0 where
    nothing : (ms : List IngressMessage) → Taken t ms []
    took :
        (m : IngressMessage) (ms : List IngressMessage) (ids : List Text)
        → Sound t m
        → Taken t ms ids
        → Taken t (m ∷ ms) (m.id ∷ ids)

  -- After an admission that is not refused, the broker knows the task.
  admit_script-Known :
      (task_id : Text) (key : Key) (submitted : ℤ) (payload : Text) (epoch : ℤ) (s : Store)
      → let r = admit_script task_id key submitted payload epoch s in
        (r.1 ≡ fenced_error) ⊎ Known (books r.0) task_id
  unfolding admit_script admit_body
  admit_script-Known task_id key submitted payload epoch s =
      guarded_cases (λ r. (r.1 ≡ fenced_error) ⊎ Known (books r.0) task_id) epoch
        (admit_body task_id key submitted payload) s (λ _. inl refl)
        λ c _. elim (Bool-cases (is_done s task_id)) [
          | inl e ↦ rw (admit_body, e) (inr (inr e))
          | inr e ↦ elim (Bool-cases (is_some (redis.hget s.payloads task_id))) [
            | inl f ↦ rw (admit_body, e, f) (inr (inl f))
            | inr f ↦ rw (admit_body, e, f) (inr (inl (has-hset_self s.payloads task_id payload)))
          ]
        ]

  admit_cases {κ} :
      ⦃codec : Codec⦄
      → (P : World × Answer Bool → Type κ) (task : Task) (key : Key) (epoch : ℤ) (w : World)
      → ((w' : World) → Steps w.store w'.store → P (w', err_other))
      → ((w' : World) → Steps w.store w'.store → P (w', err_fenced))
      → ((w' : World) (b : Bool)
          → Steps w.store w'.store
          → Known (books w'.store) task.id
          → P (w', answer b))
      → P (admit task key epoch w)
  unfolding admit map_answer answer_of
  admit_cases ⦃codec⦄ P task key epoch w other fenced admitted =
      marshalled (codec.marshal_task task)
    where
      step :
          (payload : Text) (s : Store)
          → Steps w.store s
          → Steps w.store (admit_script task.id key (submitted_at_millis task) payload epoch s).0
      step payload s r = more r (Steps.admit task.id key (submitted_at_millis task) payload epoch)

      replied :
          (w' : World) (a : Reply ℕ)
          → Steps w.store w'.store
          → (a ≡ fenced_error) ⊎ Known (books w'.store) task.id
          → P (w', map_answer (λ n. n == 1) (answer_of a))
      replied w' fenced_error r k = fenced w' r
      replied w' (reply n) r (inl e) = cc
      replied w' (reply n) r (inr k) = admitted w' (n == 1) r k

      marshalled :
          (p : Option Text)
          → P (elim p [
            | none ↦ (w, err_other)
            | some payload ↦
                let (w', a) =
                  call (admit_script task.id key (submitted_at_millis task) payload epoch) w in
                (w', map_answer (λ n. n == 1) a)
          ])
      marshalled none = other w done
      marshalled (some payload) =
          call_cases (λ r. P (r.0, map_answer (λ n. n == 1) r.1))
            (admit_script task.id key (submitted_at_millis task) payload epoch) w
            (λ s ts r. other _ r) (λ s ts r. other _ (step payload s r))
            λ s ts r.
              replied _ _ (step payload s r)
                (admit_script-Known task.id key (submitted_at_millis task) payload epoch s)

  pub Sound-Steps : (s t : Store) (m : IngressMessage) → Steps s t → Sound s m → Sound t m
  Sound-Steps s t m r (inl k) = inl (Steps-Known s t m.task.id r k)
  Sound-Steps s t m r (inr e) = inr e

  module _ ⦃codec : Codec⦄ (pol : Policy) where
    -- What a run over a batch leaves behind.
    pub record Settles (w : World) (ms : List IngressMessage) (r : Intake pol) : Type 0 where
      pub steps : Steps w.store r.world.store
      pub taken : Taken r.world.store ms r.acks
      pub full : r.error ≡ none → length r.acks ≡ length ms
      pub fails : (n : ℕ) → r.error ≡ some (answer n) → zero ≡ suc zero

    Settles-push :
        (w : World) (m : IngressMessage) (ms : List IngressMessage) (r : Intake pol)
        → Sound w.store m
        → Settles w ms r
        → Settles w (m ∷ ms) (push_ack pol m.id r)
    unfolding push_ack
    Settles-push w m ms r k h = record {
      steps = h.steps;
      taken = took m ms r.acks (Sound-Steps w.store r.world.store m h.steps k) h.taken;
      full = λ e. ap suc (h.full e);
      fails = h.fails;
    }

    Settles-after :
        (w w' : World) (ms : List IngressMessage) (r : Intake pol)
        → Steps w.store w'.store
        → Settles w' ms r
        → Settles w ms r
    Settles-after w w' ms r q h = record {
      steps = Steps-trans q h.steps;
      taken = h.taken;
      full = h.full;
      fails = h.fails;
    }

    admit_loop-Settles :
        (ids : List Text) (epoch : ℤ) (ms : List IngressMessage) (p : pol.State) (w : World)
        → ((id : Text) → has id ids ≡ true → Known (books w.store) id)
        → Settles w ms (admit_loop pol ids epoch ms p w)
    unfolding admit_loop
    admit_loop-Settles ids epoch [] p w h = record {
      steps = done;
      taken = nothing [];
      full = λ _. refl;
      fails = λ n e. cc;
    }
    admit_loop-Settles ids epoch (m ∷ ms) p w h = elim (Bool-cases (has m.task.id ids)) [
      | inl e ↦
          rw (admit_loop, e)
            (Settles-push w m ms _ (inl (h m.task.id e)) (admit_loop-Settles ids epoch ms p w h))
      | inr e ↦ elim (Option-cases (validate m.task)) [
        | inr (why, f) ↦
            rw (admit_loop, e, f)
              (Settles-push w m ms _ (inr (why, f)) (admit_loop-Settles ids epoch ms p w h))
        | inl f ↦
            let (key, p') = pol.rank p m.task in
            rw (admit_loop, e, f)
              (admit_cases
                (λ a. Settles w (m ∷ ms) (elim a.1 [
                  | answer b ↦ push_ack pol m.id (admit_loop pol ids epoch ms p' a.0)
                  | err_fenced ↦ record {
                    clocks = p';
                    world = a.0;
                    acks = [];
                    error = some err_fenced;
                  }
                  | err_other ↦ record {
                    clocks = p';
                    world = a.0;
                    acks = [];
                    error = some err_other;
                  }
                ]))
                m.task key epoch w
                (λ w' r. record {
                  steps = r;
                  taken = nothing (m ∷ ms);
                  full = λ z. cc;
                  fails = λ n z. cc;
                })
                (λ w' r. record {
                  steps = r;
                  taken = nothing (m ∷ ms);
                  full = λ z. cc;
                  fails = λ n z. cc;
                })
                λ w' b r k. Settles-after w w' (m ∷ ms) _ r (
                  Settles-push w' m ms _ (inl k) (
                    admit_loop-Settles ids epoch ms p' w'
                      λ id g. Steps-Known w.store w'.store id r (h id g))))
      ]
    ]

    pub take_in-Settles :
        (ms : List IngressMessage) (epoch : ℤ) (p : pol.State) (w : World)
        → Settles w ms (take_in pol ms epoch p w)
    unfolding take_in
    take_in-Settles ms epoch p w =
        let k = known-Reads (task_ids ms) w in
        Settles-after w _ ms _ k.steps (
          admit_loop-Settles (or_empty (known (task_ids ms) w).1) epoch ms p
            (known (task_ids ms) w).0 k.truth)
