-- ===== src/Process/Reclaim.antt =====
-- Once of internal/recovery/recovery.go: what a pass leaves of the deliveries that it took back.
use distributed_task_queue_s.Prelude.{
  ℕ, suc, ◌+◌, ◌≡◌, sym, subst, inl, inr, Bool-cases, Option-cases, List, [], ◌∷◌, All, length, ℤ,
  Text, text_eq, arith, Bool,
}
use distributed_task_queue_s.Domain.Time.{Time, unix_milli}
use distributed_task_queue_s.Domain.Task.{Task}
use distributed_task_queue_s.Env.Float.{Float64}
use distributed_task_queue_s.Env.Redis.{Redis}
use distributed_task_queue_s.Env.Codec.{Codec}
use distributed_task_queue_s.Broker.Store.{Store}
use distributed_task_queue_s.Broker.Scripts.{
  Reply, reply, fenced_error, ack_old, retry_script, bury, redeliver,
}
use distributed_task_queue_s.Broker.Cases.{retry_cases}
use distributed_task_queue_s.System.Steps.{Steps, done, more, retry, Steps-trans}
use distributed_task_queue_s.System.Books.{books}
use distributed_task_queue_s.System.Once.{Known, Steps-Known, has-hset_self}
use distributed_task_queue_s.Process.World.{
  World, Trip, Answer, answer, err_fenced, err_other, answer_of, map_answer, call, call_cases,
}
use distributed_task_queue_s.Process.Finish.{
  ExecMessage, RetryOutcome, outcome_of, next_attempt, is_dead, letter, retry_or_dead_letter,
}
use distributed_task_queue_s.Process.Worker.{Clock, retry_budget, reclaim}

module _ ⦃fl : Float64⦄ ⦃redis : Redis⦄ where
  ack_old-books : (msg : Text) (s : Store) → books (ack_old msg s) ≡ books s
  unfolding ack_old
  ack_old-books msg s = elim (Bool-cases (text_eq msg [])) [
    | inl e ↦ rw (ack_old, e)
    | inr e ↦ rw (ack_old, e)
  ]

  ack_old-Known :
      (msg id : Text) (s : Store) → Known (books s) id → Known (books (ack_old msg s)) id
  ack_old-Known msg id s = subst (λ b. Known b id) (sym (ack_old-books msg s))

  retry_script-Known :
      (id retry_json dead_json : Text) (dead : Bool) (now : ℤ) (msg : Text) (max_len : ℕ)
      (s : Store)
      → Known (books (retry_script id retry_json dead_json dead now msg max_len s).0) id
  unfolding bury redeliver
  retry_script-Known id retry_json dead_json dead now msg max_len s =
      retry_cases (λ r. Known (books r.0) id) id retry_json dead_json dead now msg max_len s
        (λ e. ack_old-Known msg id s (inr e))
        (λ _ _. ack_old-Known msg id (bury id dead_json now s) (inr (has-hset_self s.done id now)))
        λ _ _.
          ack_old-Known msg id (redeliver id retry_json now max_len s)
            (inl (has-hset_self s.payloads id retry_json))

  -- What a handled delivery leaves: the broker knows the task, if there was no error.
  abbrev Left : Text → World × Answer (RetryOutcome × Task) → Type 0
  Left id (w, answer o) = Known (books w.store) id
  Left id (w, err_fenced) = Unit
  Left id (w, err_other) = Unit

  record Retried (id : Text) (w : World) (r : World × Answer (RetryOutcome × Task)) : Type 0 where
    steps : Steps w.store r.0.store
    left : Left id r

  retry-Retried :
      ⦃codec : Codec⦄
      → (max_len : ℕ) (task : Task) (budget : ℤ) (reason msg : Text) (failed_at now : Time)
        (w : World)
      → Retried task.id w (retry_or_dead_letter max_len task budget reason msg failed_at now w)
  unfolding retry_or_dead_letter map_answer answer_of
  retry-Retried ⦃codec⦄ max_len task budget reason msg failed_at now w =
      elim (Option-cases (codec.marshal_task (next_attempt task budget))) [
        | inl e ↦ rw (e, retry_or_dead_letter) (record { steps = done; left = tt })
        | inr (retry_json, e) ↦
            elim (Option-cases (codec.marshal_dead_letter (letter task reason failed_at))) [
              | inl f ↦ rw (e, f, retry_or_dead_letter) (record { steps = done; left = tt })
              | inr (dead_json, f) ↦ rw (e, f, retry_or_dead_letter) (called retry_json dead_json)
            ]
      ]
    where
      script : (retry_json dead_json : Text) → Store → Store × Reply ℕ
      script retry_json dead_json =
          retry_script task.id retry_json dead_json (is_dead task budget) (unix_milli now) msg
            max_len

      step :
          (retry_json dead_json : Text) (s : Store)
          → Steps w.store s
          → Steps w.store (script retry_json dead_json s).0
      step retry_json dead_json s r =
          more r
            (retry task.id retry_json dead_json (is_dead task budget) (unix_milli now) msg max_len)

      heard :
          (store : Store) (ts : List Trip) (a : Reply ℕ)
          → Steps w.store store
          → Known (books store) task.id
          → Retried task.id w (
            record { store = store; trips = ts },
            map_answer (λ n. (outcome_of n, next_attempt task budget)) (answer_of a),
          )
      heard store ts (reply n) r k = record { steps = r; left = k }
      heard store ts fenced_error r k = record { steps = r; left = tt }

      called :
          (retry_json dead_json : Text)
          → Retried task.id w (
              let (w', a) = call (script retry_json dead_json) w in
              (w', map_answer (λ n. (outcome_of n, next_attempt task budget)) a))
      called retry_json dead_json =
          call_cases
            (λ r.
              Retried task.id w
                (r.0, map_answer (λ n. (outcome_of n, next_attempt task budget)) r.1))
            (script retry_json dead_json) w (λ s ts r. record { steps = r; left = tt })
            (λ s ts r. record { steps = step retry_json dead_json s r; left = tt })
            λ s ts r. heard _ ts _ (step retry_json dead_json s r) (
              retry_script-Known task.id retry_json dead_json (is_dead task budget) (unix_milli now)
                msg max_len s)

  module _ ⦃codec : Codec⦄ (max_len : ℕ) (configured : ℤ) (reason : Text) (clock : ℕ → Clock) where
    -- A whole pass: how many of the deliveries it handled, and what is left of them.
    pub record Handled (handled : ℕ) (msgs : List ExecMessage) (w : World)
        (r : World × ℕ × Answer ℕ) : Type 0 where
      pub steps : Steps w.store r.0.store
      pub counted : (n : ℕ) → r.2 ≡ answer n → n ≡ handled + length msgs
      pub known : (n : ℕ) → r.2 ≡ answer n → All (λ m. Known (books r.0.store) m.task.id) msgs

    Handled-next :
        (k : ℕ) (m : ExecMessage) (msgs : List ExecMessage) (w w' : World)
        (r : World × ℕ × Answer ℕ)
        → Steps w.store w'.store
        → Known (books w'.store) m.task.id
        → Handled (suc k) msgs w' r
        → Handled k (m ∷ msgs) w r
    Handled-next k m msgs w w' r q known h = record {
      steps = Steps-trans q h.steps;
      counted = λ n e. omega (arith, h.counted n e);
      known = λ n e. (Steps-Known w'.store r.0.store m.task.id h.steps known, h.known n e);
    }

    -- Once moves the store by steps of the system only, and if it answers without an error it has
    -- handled every delivery that it took back, each of whose tasks the broker then knows: it is
    -- stored or terminal, whatever others did and whichever replies were lost.
    pub reclaim-Handled :
        (k : ℕ) (msgs : List ExecMessage) (w : World)
        → Handled k msgs w (reclaim max_len configured reason clock k msgs w)
    unfolding reclaim
    reclaim-Handled k [] w = record { steps = done; counted = λ n e. ended n e; known = λ n e. tt }
      where
        ended : (n : ℕ) → answer k ≡ answer n → n ≡ k + 0
        ended n e = ground arith
    reclaim-Handled k (m ∷ msgs) w = after (reclaim-Handled (suc k) msgs) _ (
        retry-Retried max_len m.task (retry_budget configured m.task.max_retries) reason m.id
          (clock k).failed_at (clock k).now w)
      where
        after :
            ((w' : World)
              → Handled (suc k) msgs w' (reclaim max_len configured reason clock (suc k) msgs w'))
            → (r : World × Answer (RetryOutcome × Task)) → Retried m.task.id w r
            → Handled k (m ∷ msgs) w (elim r.1 [
              | answer o ↦ reclaim max_len configured reason clock (suc k) msgs r.0
              | err_fenced ↦ (r.0, k, err_fenced)
              | err_other ↦ (r.0, k, err_other)
            ])
        after rest (w', answer o) h = Handled-next k m msgs w w' _ h.steps h.left (rest w')
        after rest (w', err_fenced) h = record {
          steps = h.steps;
          counted = λ n e. cc;
          known = λ n e. cc;
        }
        after rest (w', err_other) h = record {
          steps = h.steps;
          counted = λ n e. cc;
          known = λ n e. cc;
        }
