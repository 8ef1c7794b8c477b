-- ===== src/Process/Twice.antt =====
-- Running a task of internal/worker twice.
use distributed_task_queue_s.Prelude.{
  ℕ, ◌==◌, ◌≡◌, refl, sym, subst, inl, inr, Bool, true, false, Option-cases, List, ℤ, Text, arith,
}
use distributed_task_queue_s.Domain.Time.{unix_milli}
use distributed_task_queue_s.Domain.Result.{Result, missed_deadline}
use distributed_task_queue_s.Domain.Task.{Task}
use distributed_task_queue_s.Env.Float.{Float64}
use distributed_task_queue_s.Env.Redis.{Redis}
use distributed_task_queue_s.Env.Codec.{Codec}
use distributed_task_queue_s.Broker.Store.{Store}
use distributed_task_queue_s.Broker.Scripts.{
  ack_old, record_completion, complete_script, retry_script,
}
use distributed_task_queue_s.Broker.Cases.{is_done, complete_cases}
use distributed_task_queue_s.System.Steps.{Steps}
use distributed_task_queue_s.System.Once.{
  has-hset_self, Steps-terminal, complete-terminal, retry-terminal,
}
use distributed_task_queue_s.Process.World.{
  World, Trip, Answer, answer, err_fenced, err_other, answer_of, map_answer, call, call_cases,
}
use distributed_task_queue_s.Process.Finish.{
  ExecMessage, RetryOutcome, already_terminal, outcome_of, next_attempt, is_dead, letter, complete,
  service_of, retry_or_dead_letter,
}
use distributed_task_queue_s.Process.Worker.{
  Ended, abandoned, retried, recorded, Clock, execute, retry_budget, result_of,
}

module _ ⦃fl : Float64⦄ ⦃redis : Redis⦄ where
  ack_old-done : (msg : Text) (s : Store) → (ack_old msg s).done ≡ s.done
  unfolding ack_old
  ack_old-done msg s = ground arith

  -- The answer's promise: a recorded completion has left the task terminal.
  abbrev Marked : Text → World × Answer Ended → Type 0
  Marked id (w, answer (recorded true)) = is_done w.store id ≡ true
  Marked id (w, answer (recorded false)) = Unit
  Marked id (w, answer (retried o)) = Unit
  Marked id (w, answer abandoned) = Unit
  Marked id (w, err_fenced) = Unit
  Marked id (w, err_other) = Unit

  -- No result was recorded and nothing was redelivered or buried.
  abbrev pub Suppressed : Answer Ended → Type 0
  Suppressed (answer (recorded b)) = b ≡ false
  Suppressed (answer (retried o)) = o ≡ already_terminal
  Suppressed (answer abandoned) = Unit
  Suppressed err_fenced = Unit
  Suppressed err_other = Unit

  complete_script-Marked :
      (ts : List Trip) (id result tenant : Text) (service : ℤ) (missed : Bool) (now : ℤ)
      (msg : Text) (max_len : ℕ) (s : Store)
      → let r = complete_script id result tenant service missed now msg max_len s in
        Marked id (
          record { store = r.0; trips = ts },
          map_answer recorded (map_answer (λ n. n == 1) (answer_of r.1)),
        )
  unfolding map_answer answer_of record_completion
  complete_script-Marked ts id result tenant service missed now msg max_len s =
      complete_cases
        (λ r. Marked id (
          record { store = r.0; trips = ts },
          map_answer recorded (map_answer (λ n. n == 1) (answer_of r.1)),
        ))
        id result tenant service missed now msg max_len s (λ _. tt)
        λ _.
          rw (ack_old-done msg (record_completion id result tenant service missed now max_len s))
            (has-hset_self s.done id now)

  module _ ⦃codec : Codec⦄ (max_len : ℕ) where
    -- The call that `complete` makes, once the result is marshalled.
    abbrev completing : Result → Text → ℤ → World → Text → World × Answer Ended
    completing res msg now w payload =
        let (w', a) =
          call
            (complete_script res.task_id payload res.tenant_id (service_of res)
              (missed_deadline res) now msg max_len)
            w in
        (w', map_answer recorded (map_answer (λ n. n == 1) a))

    execute_complete {κ} :
        (P : World × Answer Ended → Type κ) (res : Result) (msg : Text) (now : ℤ) (w : World)
        → P (w, err_other)
        → ((payload : Text) → P (completing res msg now w payload))
        → (t : ℤ) → now ≡ unix_milli t
        → P ((complete max_len res msg t w).0, map_answer recorded (complete max_len res msg t w).1)
    unfolding complete map_answer
    execute_complete P res msg now w lost made t e =
        elim (Option-cases (codec.marshal_result res)) [
          | inl f ↦ rw (f, complete) lost
          | inr (payload, f) ↦ rw (f, complete, sym e) (made payload)
        ]

    complete-Marked :
        (res : Result) (msg : Text) (t : ℤ) (w : World)
        → Marked res.task_id
            ((complete max_len res msg t w).0, map_answer recorded (complete max_len res msg t w).1)
    unfolding map_answer
    complete-Marked res msg t w =
        execute_complete (Marked res.task_id) res msg (unix_milli t) w tt
          (λ payload.
            call_cases
              (λ r. Marked res.task_id (r.0, map_answer recorded (map_answer (λ n. n == 1) r.1)))
              (complete_script res.task_id payload res.tenant_id (service_of res)
                (missed_deadline res) (unix_milli t) msg max_len)
              w (λ s ts r. tt) (λ s ts r. tt)
              λ s ts r.
                complete_script-Marked ts res.task_id payload res.tenant_id (service_of res)
                  (missed_deadline res) (unix_milli t) msg max_len s)
          t refl

    complete-Suppressed :
        (res : Result) (msg : Text) (t : ℤ) (w : World)
        → is_done w.store res.task_id ≡ true
        → Suppressed (map_answer recorded (complete max_len res msg t w).1)
    unfolding map_answer answer_of
    complete-Suppressed res msg t w h =
        execute_complete (λ r. Suppressed r.1) res msg (unix_milli t) w tt
          (λ payload.
            call_cases (λ r. Suppressed (map_answer recorded (map_answer (λ n. n == 1) r.1)))
              (complete_script res.task_id payload res.tenant_id (service_of res)
                (missed_deadline res) (unix_milli t) msg max_len)
              w (λ s ts r. tt) (λ s ts r. tt)
              λ s ts r.
                rw
                  (complete-terminal res.task_id payload res.tenant_id (service_of res)
                    (missed_deadline res) (unix_milli t) msg max_len s
                    (Steps-terminal w.store s res.task_id r h))
                  refl)
          t refl

    retry-Suppressed :
        (task : Task) (budget : ℤ) (reason msg : Text) (failed_at now : ℤ) (w : World)
        → is_done w.store task.id ≡ true
        → Suppressed (
            map_answer
              (λ o. retried o.0)
              (retry_or_dead_letter max_len task budget reason msg failed_at now w).1)
    unfolding retry_or_dead_letter map_answer answer_of outcome_of
    retry-Suppressed task budget reason msg failed_at now w h =
        elim (Option-cases (codec.marshal_task (next_attempt task budget))) [
          | inl e ↦ rw (e, retry_or_dead_letter) tt
          | inr (retry_json, e) ↦
              elim (Option-cases (codec.marshal_dead_letter (letter task reason failed_at))) [
                | inl f ↦ rw (e, f, retry_or_dead_letter) tt
                | inr (dead_json, f) ↦
                    rw (e, f, retry_or_dead_letter)
                      (call_cases
                        (λ r. Suppressed (
                          map_answer (λ (o : RetryOutcome × Task). retried o.0)
                            (map_answer (λ n. (outcome_of n, next_attempt task budget)) r.1)))
                        (retry_script task.id retry_json dead_json (is_dead task budget)
                          (unix_milli now) msg max_len)
                        w (λ s ts r. tt) (λ s ts r. tt)
                        λ s ts r.
                          rw
                            (retry-terminal task.id retry_json dead_json (is_dead task budget)
                              (unix_milli now) msg max_len s (Steps-terminal w.store s task.id r h))
                            refl)
              ]
        ]

    module _ (configured : ℤ) (reason consumer : Text) where
      execute-Marked :
          (app_failure abandon : Bool) (clock : Clock) (msg : ExecMessage) (w : World)
          → Marked msg.task.id
              (execute max_len configured reason consumer app_failure abandon clock msg w)
      unfolding execute result_of map_answer
      execute-Marked app_failure true clock msg w = tt
      execute-Marked true false clock msg w = retried_lem (
          retry_or_dead_letter max_len msg.task (retry_budget configured msg.task.max_retries)
            reason msg.id clock.failed_at clock.now w)
        where
          retried_lem :
              (r : World × Answer (RetryOutcome × Task))
              → Marked msg.task.id (r.0, map_answer (λ o. retried o.0) r.1)
          retried_lem (w', answer o) = tt
          retried_lem (w', err_fenced) = tt
          retried_lem (w', err_other) = tt
      execute-Marked false false clock msg w =
          complete-Marked (result_of msg consumer clock.started clock.finished) msg.id clock.now w

      execute-Suppressed :
          (app_failure abandon : Bool) (clock : Clock) (msg : ExecMessage) (w : World)
          → is_done w.store msg.task.id ≡ true
          → Suppressed
              (execute max_len configured reason consumer app_failure abandon clock msg w).1
      unfolding execute result_of
      execute-Suppressed app_failure true clock msg w h = tt
      execute-Suppressed true false clock msg w h =
          retry-Suppressed msg.task (retry_budget configured msg.task.max_retries) reason msg.id
            clock.failed_at clock.now w h
      execute-Suppressed false false clock msg w h =
          complete-Suppressed (result_of msg consumer clock.started clock.finished) msg.id clock.now
            w h

  -- Under at-least-once delivery a completion is answered for at most once: after a worker's execute
  -- has answered that its completion was recorded, no later execute of a delivery with the same task
  -- id, by whatever worker, with any steps of others, injected failures and lost calls in between,
  -- answers that it recorded, redelivered or dead-lettered the task.
  pub executed_at_most_once :
      ⦃codec : Codec⦄
      → (max_len max_len' : ℕ) (configured configured' : ℤ)
        (reason reason' consumer consumer' : Text)
        (app_failure abandon app_failure' abandon' : Bool) (clock clock' : Clock)
        (msg msg' : ExecMessage) (w w' v : World)
      → execute max_len configured reason consumer app_failure abandon clock msg w
        ≡ (w', answer (recorded true))
      → Steps w'.store v.store
      → msg'.task.id ≡ msg.task.id
      → Suppressed
          (execute max_len' configured' reason' consumer' app_failure' abandon' clock' msg' v).1
  executed_at_most_once max_len max_len' configured configured' reason reason' consumer consumer'
        app_failure abandon app_failure' abandon' clock clock' msg msg' w w' v e r same =
      let marked : is_done w'.store msg.task.id ≡ true =
        subst (Marked msg.task.id) e
          (execute-Marked max_len configured reason consumer app_failure abandon clock msg w) in
      execute-Suppressed max_len' configured' reason' consumer' app_failure' abandon' clock' msg' v
        (rw same (Steps-terminal w'.store v.store msg.task.id r marked))
