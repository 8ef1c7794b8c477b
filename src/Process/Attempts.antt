-- ===== src/Process/Attempts.antt =====
-- How often internal/recovery and internal/worker redeliver a task.
use distributed_task_queue_s.Prelude.{
  ℕ, suc, ◌≡◌, refl, ap, subst, true, false, Option, none, some, ℤ, pos, ◌+ℤ◌, Text, arith,
}
use distributed_task_queue_s.Domain.Time.{Time, unix_milli}
use distributed_task_queue_s.Domain.Task.{Task}
use distributed_task_queue_s.Env.Float.{Float64}
use distributed_task_queue_s.Env.Redis.{Redis}
use distributed_task_queue_s.Env.Codec.{Codec}
use distributed_task_queue_s.Broker.Store.{Store}
use distributed_task_queue_s.Broker.Scripts.{Reply, retry_script}
use distributed_task_queue_s.Broker.Cases.{retry_cases}
use distributed_task_queue_s.Process.World.{
  World, Answer, answer, err_fenced, err_other, answer_of, map_answer, call, call_cases,
}
use distributed_task_queue_s.Process.Finish.{
  RetryOutcome, redelivered, dead_lettered, outcome_of, next_attempt, is_dead, letter,
  retry_or_dead_letter,
}
use distributed_task_queue_s.Process.Worker.{retry_budget}

-- What an outcome says of the task and its budget.
pub record Decided (task : Task) (budget : ℤ) (o : RetryOutcome) (u : Task) : Type 0 where
  pub next : u ≡ next_attempt task budget
  pub live : o ≡ redelivered → is_dead task budget ≡ false
  pub dead : o ≡ dead_lettered → is_dead task budget ≡ true

abbrev Says : Task → ℤ → Answer (RetryOutcome × Task) → Type 0
Says task budget (answer (o, u)) = Decided task budget o u
Says task budget err_fenced = Unit
Says task budget err_other = Unit

module _ ⦃fl : Float64⦄ ⦃redis : Redis⦄ where
  retry_script-Says :
      (task : Task) (budget : ℤ) (retry_json dead_json msg : Text) (now : ℤ) (max_len : ℕ)
      (s : Store)
      → Says task budget (
          map_answer
            (λ n. (outcome_of n, next_attempt task budget))
            (answer_of
              (retry_script task.id retry_json dead_json
                (is_dead task budget)
                now
                msg
                max_len
                s).1))
  unfolding map_answer answer_of outcome_of
  retry_script-Says task budget retry_json dead_json msg now max_len s =
      retry_cases
        (λ r.
          Says task budget
            (map_answer (λ n. (outcome_of n, next_attempt task budget)) (answer_of r.1)))
        task.id retry_json dead_json (is_dead task budget) now msg max_len s
        (λ _. record { next = refl; live = λ e. cc; dead = λ e. cc })
        (λ _ d. record { next = refl; live = λ e. cc; dead = λ _. d })
        λ _ d. record { next = refl; live = λ _. d; dead = λ e. cc }

  abbrev Told : Task → ℤ → World × Answer (RetryOutcome × Task) → Type 0
  Told task budget r = Says task budget r.1

  retry-Says :
      ⦃codec : Codec⦄
      → (max_len : ℕ) (task : Task) (budget : ℤ) (reason msg : Text) (failed_at now : Time)
        (w : World)
      → Told task budget (retry_or_dead_letter max_len task budget reason msg failed_at now w)
  unfolding retry_or_dead_letter map_answer
  retry-Says ⦃codec⦄ max_len task budget reason msg failed_at now w =
      marshalled (codec.marshal_task (next_attempt task budget))
        (codec.marshal_dead_letter (letter task reason failed_at))
    where
      script : (retry_json dead_json : Text) → Store → Store × Reply ℕ
      script retry_json dead_json =
          retry_script task.id retry_json dead_json (is_dead task budget) (unix_milli now) msg
            max_len

      marshalled :
          (p q : Option Text)
          → Told task budget (elim p [
            | none ↦ (w, err_other)
            | some retry_json ↦ elim q [
              | none ↦ (w, err_other)
              | some dead_json ↦
                  let (w', a) = call (script retry_json dead_json) w in
                  (w', map_answer (λ n. (outcome_of n, next_attempt task budget)) a)
            ]
          ])
      marshalled none q = tt
      marshalled (some retry_json) none = tt
      marshalled (some retry_json) (some dead_json) =
          call_cases
            (λ r. Says task budget (map_answer (λ n. (outcome_of n, next_attempt task budget)) r.1))
            (script retry_json dead_json) w (λ s ts r. tt) (λ s ts r. tt)
            λ s ts r.
              retry_script-Says task budget retry_json dead_json msg (unix_milli now) max_len s

  -- When RetryOrDeadLetter answers without an error, the task that it gives back is the next attempt;
  -- it has redelivered only if the raised retry count is within the budget, and dead-lettered only
  -- if that count passes it.
  pub retry_within_budget :
      ⦃codec : Codec⦄
      → (max_len : ℕ) (task u : Task) (budget : ℤ) (reason msg : Text) (failed_at now : Time)
        (w w' : World) (o : RetryOutcome)
      → retry_or_dead_letter max_len task budget reason msg failed_at now w ≡ (w', answer (o, u))
      → Decided task budget o u
  retry_within_budget max_len task u budget reason msg failed_at now w w' o e =
      subst (Says task budget) (ap (λ r. r.1) e)
        (retry-Says max_len task budget reason msg failed_at now w)

  -- A chain of deliveries of a task: `n` redeliveries, each of the delivery before it and under its
  -- budget, in any worlds.
  pub data Attempts ⦃codec : Codec⦄ (configured : ℤ) (task : Task) : ℕ → Task → Type 0 where
    first : Attempts configured task 0 task
    again :
        {n : ℕ} {u v : Task} (max_len : ℕ) (reason msg : Text) (failed_at now : Time) (w w' : World)
        → Attempts configured task n u
        → retry_or_dead_letter max_len u
            (retry_budget configured u.max_retries)
            reason
            msg
            failed_at
            now
            w
          ≡ (w', answer (redelivered, v))
        → Attempts configured task (suc n) v

  pub retry_budget-again : (c m : ℤ) → retry_budget c (retry_budget c m) ≡ retry_budget c m
  unfolding retry_budget
  retry_budget-again c m = ground arith

  record Counted (configured : ℤ) (task : Task) (n : ℕ) (u : Task) : Type 0 where
    budget : retry_budget configured u.max_retries ≡ retry_budget configured task.max_retries
    count : u.retry_count ≡ task.retry_count +ℤ pos n
