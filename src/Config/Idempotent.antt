-- ===== src/Config/Idempotent.antt =====
-- Patching a configuration twice changes nothing.
use distributed_task_queue_s.Prelude.{
  ◌≡◌, refl, Bool, true, false, ◌&&◌, List, Text, ℤ, if◌then◌else◌, Bool-cases, inl, inr,
}
use distributed_task_queue_s.Env.Float.{Float64}
use distributed_task_queue_s.Config.{
  Redis, Streams, Recovery, Log, ExecSpec, Scheduler, Worker, PrioritySpec, DeadlineSpec,
  TenantShare, BurstSpec, HeavyTailSpec, Workload, Config,
}
use distributed_task_queue_s.Config.Defaults.{
  is_blank, is_null, is_empty, text_or, int_or, is_null_float, float_or,
}
use distributed_task_queue_s.Config.Apply.{
  apply_redis, apply_streams, apply_scheduler, apply_worker, apply_recovery, apply_workload,
  apply_log, apply_defaults, exec_or, priority_or, shares_or, deadline_or, burst_or, heavy_tail_or,
}

-- What has its default, or a value of its own, keeps it.
or_idem {ℓ} :
    {A : Type ℓ} (unset : A → Bool) (x d : A) (b : Bool)
    → unset x ≡ b
    → (if unset (if b then d else x) then d else (if b then d else x)) ≡ (if b then d else x)
or_idem unset x d true h = elim (Bool-cases (unset d)) [ inl e ↦ rw e refl | inr e ↦ rw e refl ]
or_idem unset x d false h = rw h refl

text_or_idem : (x d : Text) → text_or (text_or x d) d ≡ text_or x d
text_or_idem x d = or_idem is_blank x d (is_blank x) refl

int_or_idem : (x d : ℤ) → int_or (int_or x d) d ≡ int_or x d
int_or_idem x d = or_idem is_null x d (is_null x) refl

ruleset fields = (text_or_idem, int_or_idem)

apply_redis_idem : (c : Redis) → apply_redis (apply_redis c) ≡ apply_redis c
unfolding apply_redis
apply_redis_idem c = simp fields

apply_log_idem : (c : Log) → apply_log (apply_log c) ≡ apply_log c
unfolding apply_log
apply_log_idem c = simp fields

apply_streams_idem : (c : Streams) → apply_streams (apply_streams c) ≡ apply_streams c
unfolding apply_streams
apply_streams_idem c = simp fields

apply_recovery_idem : (c : Recovery) → apply_recovery (apply_recovery c) ≡ apply_recovery c
unfolding apply_recovery
apply_recovery_idem c = simp fields

module _ ⦃fl : Float64⦄ where
  float_or_idem : (x d : fl.F) → float_or (float_or x d) d ≡ float_or x d
  float_or_idem x d = or_idem is_null_float x d (is_null_float x) refl

  exec_or_idem : (x d : ExecSpec) → exec_or (exec_or x d) d ≡ exec_or x d
  exec_or_idem x d = or_idem (λ e. is_null e.max_millis) x d (is_null x.max_millis) refl

  priority_or_idem : (x d : PrioritySpec) → priority_or (priority_or x d) d ≡ priority_or x d
  priority_or_idem x d = or_idem (λ e. is_empty e.weights) x d (is_empty x.weights) refl

  shares_or_idem : (x d : List TenantShare) → shares_or (shares_or x d) d ≡ shares_or x d
  shares_or_idem x d = or_idem is_empty x d (is_empty x) refl

  deadline_or_idem : (x d : DeadlineSpec) → deadline_or (deadline_or x d) d ≡ deadline_or x d
  deadline_or_idem x d =
      or_idem
        (λ e. is_null e.base_millis && is_null_float e.exec_multiplier && is_null e.jitter_millis) x
        d _ refl

  burst_or_idem : (x d : BurstSpec) → burst_or (burst_or x d) d ≡ burst_or x d
  burst_or_idem x d =
      or_idem
        (λ e.
          is_null_float e.base_rate_per_sec
          && is_null_float e.burst_rate_per_sec
          && is_null e.burst_duration
          && is_null e.burst_period)
        x d _ refl

  heavy_tail_or_idem :
      (x d : HeavyTailSpec) → heavy_tail_or (heavy_tail_or x d) d ≡ heavy_tail_or x d
  heavy_tail_or_idem x d =
      or_idem (λ e. is_null e.min_millis && is_null e.max_millis && is_null_float e.alpha) x d _
        refl

  ruleset workload_fields = (
    fields, float_or_idem, exec_or_idem, priority_or_idem, shares_or_idem, deadline_or_idem,
    burst_or_idem, heavy_tail_or_idem,
  )

  apply_scheduler_idem : (c : Scheduler) → apply_scheduler (apply_scheduler c) ≡ apply_scheduler c
  unfolding apply_scheduler
  apply_scheduler_idem c = simp (fields, float_or_idem)

  apply_worker_idem : (c : Worker) → apply_worker (apply_worker c) ≡ apply_worker c
  unfolding apply_worker
  apply_worker_idem c = simp fields

  apply_workload_idem : (c : Workload) → apply_workload (apply_workload c) ≡ apply_workload c
  unfolding apply_workload
  apply_workload_idem c = simp workload_fields

  -- Patching a configuration twice gives what patching it once gives.
  pub apply_defaults-apply_defaults :
      (c : Config) → apply_defaults (apply_defaults c) ≡ apply_defaults c
  unfolding apply_defaults
  apply_defaults-apply_defaults c = simp (
    apply_redis_idem, apply_streams_idem, apply_scheduler_idem, apply_worker_idem,
    apply_recovery_idem, apply_workload_idem, apply_log_idem,
  )
