-- ===== src/Process/Finish.antt =====
-- Methods of internal/broker/broker.go that end a delivery.
use distributed_task_queue_s.Prelude.{
  ℕ, ◌==◌, Bool, Option, none, some, ◌∷◌, ◌++◌, ℤ, pos, ◌+ℤ◌, ◌*ℤ◌, ltb_ℤ, leb_ℤ, Text, get_or,
  if◌then◌else◌,
}
use distributed_task_queue_s.Domain.Time.{Time, unix_milli}
use distributed_task_queue_s.Domain.Task.{Task}
use distributed_task_queue_s.Domain.Result.{Result, DeadLetter, missed_deadline}
use distributed_task_queue_s.Env.Float.{Float64}
use distributed_task_queue_s.Env.Redis.{Redis}
use distributed_task_queue_s.Env.Codec.{Codec}
use distributed_task_queue_s.Policy.Key.{zero_padded}
use distributed_task_queue_s.Broker.Store.{ExecEntry}
use distributed_task_queue_s.Broker.Scripts.{complete_script, retry_script}
use distributed_task_queue_s.Process.World.{World, Answer, err_other, map_answer, call}

pub record ExecMessage : Type 0 where
  pub id : Text
  pub task : Task
  pub dispatched_at : Time
  pub epoch : ℤ

-- `none` is an error. An entry that the scripts wrote has both numbers well formed.
unfoldable pub parse_exec_message : ⦃codec : Codec⦄ → Text → ExecEntry → Option ExecMessage
parse_exec_message ⦃codec⦄ id entry = elim (codec.unmarshal_task entry.task) [
  | none ↦ none
  | some task ↦ some (record {
    id = id;
    task = task;
    dispatched_at = entry.dispatched_at_ms *ℤ pos 1000000;
    epoch = get_or entry.epoch (pos 0);
  })
]

pub data RetryOutcome : Type 0 where
  already_terminal redelivered dead_lettered : RetryOutcome

-- RetryOutcome(res); the script replies 0, 1 or 2.
unfoldable pub outcome_of : ℕ → RetryOutcome
outcome_of n = if n == 0 then already_terminal else if n == 1 then redelivered else dead_lettered

-- The task of the next attempt.
unfoldable pub next_attempt : Task → ℤ → Task
next_attempt task budget = record task {
  retry_count = task.retry_count +ℤ pos 1;
  max_retries = budget;
  attempt_id = task.id ++ b'#' ∷ zero_padded 1 (task.retry_count +ℤ pos 1);
}

unfoldable pub is_dead : Task → ℤ → Bool
is_dead task budget = ltb_ℤ budget (task.retry_count +ℤ pos 1)

-- The service time that is charged to the tenant.
unfoldable pub service_of : Result → ℤ
service_of res =
    if leb_ℤ res.actual_exec_millis (pos 0) then res.exec_millis else res.actual_exec_millis

module _ ⦃fl : Float64⦄ ⦃redis : Redis⦄ ⦃codec : Codec⦄ where
  unfoldable pub complete : ℕ → Result → Text → Time → World → World × Answer Bool
  unfolding call complete_script missed_deadline service_of map_answer unix_milli
  complete max_len res msg_id now w = elim (codec.marshal_result res) [
    | none ↦ (w, err_other)
    | some payload ↦
        let (w', a) =
          call
            (complete_script res.task_id payload res.tenant_id (service_of res)
              (missed_deadline res) (unix_milli now) msg_id max_len)
            w in
        (w', map_answer (λ n. n == 1) a)
  ]

  abbrev pub letter : Task → Text → Time → DeadLetter
  letter task reason failed_at = record {
    task = task;
    reason = reason;
    attempts = task.retry_count +ℤ pos 1;
    last_attempt = task.attempt_id;
    failed_at = failed_at;
  }

  -- The two calls of time.Now are `failed_at` and `now`.
  unfoldable pub retry_or_dead_letter :
      ℕ → Task → ℤ → Text → Text → Time → Time → World → World × Answer (RetryOutcome × Task)
  unfolding call retry_script next_attempt is_dead map_answer outcome_of unix_milli
  retry_or_dead_letter max_len task budget reason msg_id failed_at now w =
      let next = next_attempt task budget in
      elim (codec.marshal_task next) [
        | none ↦ (w, err_other)
        | some retry_json ↦ elim (codec.marshal_dead_letter (letter task reason failed_at)) [
          | none ↦ (w, err_other)
          | some dead_json ↦
              let (w', a) =
                call
                  (retry_script task.id retry_json dead_json (is_dead task budget) (unix_milli now)
                    msg_id max_len)
                  w in
              (w', map_answer (λ n. (outcome_of n, next)) a)
        ]
      ]
