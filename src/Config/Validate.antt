-- ===== src/Config/Validate.antt =====
-- Validate of internal/config/config.go: the problems in the order of its checks. A range over a map
-- is a pass over its entries as they are given.
use distributed_task_queue_s.Prelude.{
  Bool, false, ◌&&◌, ◌||◌, not, List, [], ◌∷◌, ◌++◌, ◌==◌, Text, text_eq, codes, pos, ltb_ℤ, leb_ℤ,
  if◌then◌else◌,
}
use distributed_task_queue_s.Env.Float.{Float64}
use distributed_task_queue_s.Policy.Choose.{valid, listed}
use distributed_task_queue_s.Config.{
  Sentinel, Redis, Streams, LeaderElection, Recovery, Log, Scheduler, Worker, Config,
}
use distributed_task_queue_s.Config.Defaults.{is_blank, is_empty, float}
use distributed_task_queue_s.Config.Problem.{Problem, report}
use distributed_task_queue_s.Config.Shares.{not_positive, validate_workload}

abbrev pub exec_mode_sleep : Text
exec_mode_sleep = codes "sleep"

abbrev pub exec_mode_cpu : Text
exec_mode_cpu = codes "cpu"

unfoldable pub valid_exec_mode : Text → Bool
valid_exec_mode mode = text_eq mode exec_mode_sleep || text_eq mode exec_mode_cpu

unfoldable pub check_sentinel : Sentinel → List Problem
unfolding report
check_sentinel c =
    report (is_blank c.master_name) Problem.master_name_required
    ++ report (is_empty c.addrs) Problem.sentinel_addrs_required
    ++ report (ltb_ℤ c.wait_for_replicas (pos 0)) Problem.wait_for_replicas_negative
    ++ report (ltb_ℤ (pos 0) c.wait_for_replicas && leb_ℤ c.wait_timeout (pos 0))
        Problem.wait_timeout_not_positive

unfoldable pub check_redis : Redis → List Problem
unfolding report check_sentinel
check_redis c =
    (if c.sentinel.enabled
      then check_sentinel c.sentinel
      else report (is_blank c.addr) Problem.redis_addr_required)
    ++ report (ltb_ℤ c.db (pos 0)) Problem.redis_db_negative
    ++ report (leb_ℤ c.pool_size (pos 0)) Problem.pool_size_not_positive

-- strings.ContainsAny(s, " \t\n").
unfoldable pub has_whitespace : Text → Bool
has_whitespace [] = false
has_whitespace (c ∷ s) = (c == 32 || c == 9 || c == 10) || has_whitespace s

unfoldable pub check_names : List (Text × Text) → List Problem
unfolding report
check_names [] = []
check_names ((name, v) ∷ rest) = report (is_blank v) (Problem.required name) ++ check_names rest

abbrev pub stream_names : Streams → List (Text × Text)
stream_names c =
    (codes "streams.ingress_stream", c.ingress_stream)
    ∷ (codes "streams.exec_stream", c.exec_stream)
    ∷ (codes "streams.results_stream", c.results_stream)
    ∷ (codes "streams.dead_letter_stream", c.dead_letter_stream)
    ∷ (codes "streams.scheduler_group", c.scheduler_group)
    ∷ (codes "streams.worker_group", c.worker_group)
    ∷ []

unfoldable pub check_streams : Streams → List Problem
unfolding report has_whitespace check_names
check_streams c =
    report (is_blank c.namespace) Problem.namespace_required
    ++ report (has_whitespace c.namespace) Problem.namespace_whitespace
    ++ check_names (stream_names c)
    ++ report (ltb_ℤ c.max_len (pos 0)) Problem.max_len_negative

unfoldable pub check_leader_election : LeaderElection → List Problem
unfolding report
check_leader_election le =
    if le.enabled
    then (if leb_ℤ le.ttl (pos 0)
        then Problem.ttl_not_positive ∷ []
        else if leb_ℤ le.renew_interval (pos 0)
        then Problem.renew_interval_not_positive ∷ []
        else if leb_ℤ le.ttl le.renew_interval
        then Problem.renew_interval_too_long ∷ []
        else [])
      ++ report (leb_ℤ le.retry_interval (pos 0)) Problem.retry_interval_not_positive
    else []

unfoldable pub check_recovery : Recovery → List Problem
unfolding report
check_recovery c =
    (if c.enabled
      then report (leb_ℤ c.interval (pos 0)) Problem.recovery_interval_not_positive
        ++ report (leb_ℤ c.min_idle (pos 0)) Problem.recovery_min_idle_not_positive
        ++ report (leb_ℤ c.batch (pos 0)) Problem.recovery_batch_not_positive
      else [])
    ++ report (ltb_ℤ c.max_retries (pos 0)) Problem.recovery_max_retries_negative

abbrev pub log_levels : List Text
log_levels = codes "debug" ∷ codes "info" ∷ codes "warn" ∷ codes "error" ∷ []

abbrev pub log_formats : List Text
log_formats = codes "text" ∷ codes "json" ∷ []

unfoldable pub check_log : Log → List Problem
unfolding report listed
check_log c =
    report (not (listed c.level log_levels)) Problem.log_level_unknown
    ++ report (not (listed c.format log_formats)) Problem.log_format_unknown

module _ ⦃fl : Float64⦄ where
  unfoldable pub check_tenant_weights : List (Text × fl.F) → List Problem
  unfolding report
  check_tenant_weights [] = []
  check_tenant_weights ((tenant, w) ∷ ws) =
      report (not_positive w) (Problem.tenant_weight_not_positive tenant) ++ check_tenant_weights ws

  unfoldable pub check_scheduler : Scheduler → List Problem
  unfolding report valid check_tenant_weights
  check_scheduler c =
      report (not (valid c.policy)) Problem.policy_unknown
      ++ report (leb_ℤ c.ingest_batch (pos 0)) Problem.ingest_batch_not_positive
      ++ report (leb_ℤ c.dispatch_batch (pos 0)) Problem.dispatch_batch_not_positive
      ++ report (leb_ℤ c.idle_sleep (pos 0)) Problem.idle_sleep_not_positive
      ++ report (ltb_ℤ c.max_in_flight (pos 0)) Problem.max_in_flight_negative
      ++ report (not_positive c.default_tenant_weight) Problem.default_tenant_weight_not_positive
      ++ check_tenant_weights c.tenant_weights
      ++ report (leb_ℤ c.state_flush_interval (pos 0)) Problem.state_flush_interval_not_positive

  unfoldable pub check_reclaim : Scheduler → List Problem
  unfolding report
  check_reclaim c =
      report (leb_ℤ c.ingest_reclaim_interval (pos 0)) Problem.ingest_reclaim_interval_not_positive
      ++ report (leb_ℤ c.ingest_reclaim_min_idle (pos 0))
          Problem.ingest_reclaim_min_idle_not_positive

  unfoldable pub check_slots : Worker → List Problem
  unfolding report valid_exec_mode
  check_slots c =
      report (leb_ℤ c.concurrency (pos 0)) Problem.concurrency_not_positive
      ++ report (not (valid_exec_mode c.exec_mode)) Problem.exec_mode_unknown

  abbrev pub outside : fl.F → Bool
  outside x = fl.ltf x (float 0) || fl.ltf (float 1) x

  unfoldable pub check_worker : Worker → List Problem
  unfolding report
  check_worker c =
      report (leb_ℤ c.block (pos 0)) Problem.block_not_positive
      ++ report (outside c.fail_before_ack_rate) Problem.fail_before_ack_rate_outside
      ++ report (outside c.fail_rate) Problem.fail_rate_outside
      ++ report (ltb_ℤ c.shutdown_grace (pos 0)) Problem.shutdown_grace_negative

  unfoldable pub validate_config : Config → List Problem
  validate_config c =
      check_redis c.redis
      ++ check_streams c.streams
      ++ check_scheduler c.scheduler
      ++ check_slots c.worker
      ++ check_reclaim c.scheduler
      ++ check_leader_election c.scheduler.leader_election
      ++ check_worker c.worker
      ++ check_recovery c.recovery
      ++ validate_workload c.workload
      ++ check_log c.log
