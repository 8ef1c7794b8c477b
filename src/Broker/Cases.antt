-- ===== src/Broker/Cases.antt =====
-- The branches of the scripts of internal/broker/scripts.go that workers and the recovery loop run.
use distributed_task_queue_s.Prelude.{
  ℕ, ◌≡◌, Bool, true, false, inl, inr, Bool-cases, ℤ, pos, Text, is_some,
}
use distributed_task_queue_s.Env.Float.{Float64}
use distributed_task_queue_s.Env.Redis.{Redis}
use distributed_task_queue_s.Broker.Store.{Store, stat_duplicate_completions}
use distributed_task_queue_s.Broker.Scripts.{
  Reply, reply, ack_old, complete_script, record_completion, retry_script, bury, redeliver,
}

module _ ⦃fl : Float64⦄ ⦃redis : Redis⦄ where
  -- The task has reached a terminal state.
  abbrev pub is_done : Store → Text → Bool
  is_done s task_id = is_some (redis.hget s.done task_id)

  pub complete_cases {κ} :
      (P : Store × Reply ℕ → Type κ) (task_id result tenant : Text) (service : ℤ) (missed : Bool)
      (now : ℤ) (msg : Text) (max_len : ℕ) (s : Store)
      → (is_done s task_id ≡ true
          → P (
            ack_old msg
                (record s { stats = redis.hincrby s.stats stat_duplicate_completions (pos 1) }),
            reply 0,
          ))
      → (is_done s task_id ≡ false
          → P (
            ack_old msg (record_completion task_id result tenant service missed now max_len s),
            reply 1,
          ))
      → P (complete_script task_id result tenant service missed now msg max_len s)
  unfolding complete_script
  complete_cases P task_id result tenant service missed now msg max_len s again first =
      elim (Bool-cases (is_done s task_id)) [
        | inl e ↦ rw (complete_script, e) (again e)
        | inr e ↦ rw (complete_script, e) (first e)
      ]

  pub retry_cases {κ} :
      (P : Store × Reply ℕ → Type κ) (task_id retry_json dead_json : Text) (is_dead : Bool)
      (now : ℤ) (msg : Text) (max_len : ℕ) (s : Store)
      → (is_done s task_id ≡ true → P (ack_old msg s, reply 0))
      → (is_done s task_id ≡ false
          → is_dead ≡ true
          → P (ack_old msg (bury task_id dead_json now s), reply 2))
      → (is_done s task_id ≡ false
          → is_dead ≡ false
          → P (ack_old msg (redeliver task_id retry_json now max_len s), reply 1))
      → P (retry_script task_id retry_json dead_json is_dead now msg max_len s)
  unfolding retry_script
  retry_cases P task_id retry_json dead_json is_dead now msg max_len s terminal dead again =
      elim (Bool-cases (is_done s task_id)) [
        | inl e ↦ rw (retry_script, e) (terminal e)
        | inr e ↦ elim (Bool-cases is_dead) [
          | inl d ↦ rw (retry_script, e, d) (dead e d)
          | inr d ↦ rw (retry_script, e, d) (again e d)
        ]
      ]
