-- ===== src/Config/Problem.antt =====
-- The errors of internal/config that Validate joins, by their field; the value that a message quotes
-- is left out where it is that of the field. An error made by errors.Join is the list of the errors
-- that are not nil, and nil is the empty list.
use distributed_task_queue_s.Prelude.{
  ℕ, ◌≡◌, Bool, true, false, List, [], ◌++◌, ◌∷◌, Text, if◌then◌else◌, refl,
}

pub data Problem : Type 0 where
  master_name_required : Problem
  sentinel_addrs_required : Problem
  wait_for_replicas_negative : Problem
  wait_timeout_not_positive : Problem
  redis_addr_required : Problem
  redis_db_negative : Problem
  pool_size_not_positive : Problem
  namespace_required : Problem
  namespace_whitespace : Problem
  -- The name of a stream or a group.
  required : Text → Problem
  max_len_negative : Problem
  policy_unknown : Problem
  ingest_batch_not_positive : Problem
  dispatch_batch_not_positive : Problem
  idle_sleep_not_positive : Problem
  max_in_flight_negative : Problem
  default_tenant_weight_not_positive : Problem
  tenant_weight_not_positive : Text → Problem
  state_flush_interval_not_positive : Problem
  ingest_reclaim_interval_not_positive : Problem
  ingest_reclaim_min_idle_not_positive : Problem
  ttl_not_positive : Problem
  renew_interval_not_positive : Problem
  renew_interval_too_long : Problem
  retry_interval_not_positive : Problem
  concurrency_not_positive : Problem
  exec_mode_unknown : Problem
  block_not_positive : Problem
  fail_before_ack_rate_outside : Problem
  fail_rate_outside : Problem
  shutdown_grace_negative : Problem
  recovery_interval_not_positive : Problem
  recovery_min_idle_not_positive : Problem
  recovery_batch_not_positive : Problem
  recovery_max_retries_negative : Problem
  log_level_unknown : Problem
  log_format_unknown : Problem
  workload_type_unknown : Problem
  count_not_positive : Problem
  id_prefix_required : Problem
  max_retries_negative : Problem
  arrival_rate_not_positive : Problem
  exec_range : Problem
  exec_max_zero : Problem
  weights_required : Problem
  weights_too_many : Problem
  weight_negative : ℕ → Problem
  weights_sum_not_positive : Problem
  base_millis_negative : Problem
  exec_multiplier_negative : Problem
  jitter_millis_negative : Problem
  tenants_required : Problem
  skew_tenants_required : Problem
  -- The field, and the index or the tenant.
  share_id_required : Text → ℕ → Problem
  share_id_duplicate : Text → Text → Problem
  share_not_positive : Text → ℕ → Problem
  shares_sum : Text → Problem
  base_rate_not_positive : Problem
  burst_rate_not_positive : Problem
  burst_duration_not_positive : Problem
  burst_period_too_short : Problem
  tail_min_not_positive : Problem
  tail_max_too_small : Problem
  alpha_not_positive : Problem

-- `if bad { errs = append(errs, p) }`.
unfoldable pub report : Bool → Problem → List Problem
report bad p = if bad then p ∷ [] else []

-- Only a check that passes reports nothing.
pub report_none : (bad : Bool) (p : Problem) → report bad p ≡ [] → bad ≡ false
unfolding report
report_none true p h = cc
report_none false p h = refl

pub append_none : (xs ys : List Problem) → xs ++ ys ≡ [] → (xs ≡ []) × (ys ≡ [])
append_none [] ys h = (refl, h)
append_none (x ∷ xs) ys h = cc
