-- ===== src/Config/Apply.antt =====
-- applyDefaults of internal/config/defaults.go, one function for each part of the document.
use distributed_task_queue_s.Prelude.{◌&&◌, List, if◌then◌else◌}
use distributed_task_queue_s.Env.Float.{Float64}
use distributed_task_queue_s.Config.{
  Redis, Streams, LeaderElection, Recovery, Log, ExecSpec, Scheduler, Worker, PrioritySpec,
  DeadlineSpec, TenantShare, BurstSpec, HeavyTailSpec, Workload, Config,
}
use distributed_task_queue_s.Config.Defaults.{
  is_null, is_empty, text_or, int_or, is_null_float, float_or, default_redis, default_streams,
  default_leader_election, default_scheduler, default_worker, default_recovery, default_workload,
  default_log,
}

unfoldable pub apply_redis : Redis → Redis
apply_redis c = record c {
  addr = text_or c.addr default_redis.addr;
  dial_timeout = int_or c.dial_timeout default_redis.dial_timeout;
  read_timeout = int_or c.read_timeout default_redis.read_timeout;
  write_timeout = int_or c.write_timeout default_redis.write_timeout;
  pool_size = int_or c.pool_size default_redis.pool_size;
}

unfoldable pub apply_streams : Streams → Streams
apply_streams c = record c {
  namespace = text_or c.namespace default_streams.namespace;
  ingress_stream = text_or c.ingress_stream default_streams.ingress_stream;
  exec_stream = text_or c.exec_stream default_streams.exec_stream;
  results_stream = text_or c.results_stream default_streams.results_stream;
  dead_letter_stream = text_or c.dead_letter_stream default_streams.dead_letter_stream;
  scheduler_group = text_or c.scheduler_group default_streams.scheduler_group;
  worker_group = text_or c.worker_group default_streams.worker_group;
}

-- Only the intervals: `enabled` at false may be what the document says.
unfoldable pub apply_leader_election : LeaderElection → LeaderElection
apply_leader_election c = record c {
  ttl = int_or c.ttl default_leader_election.ttl;
  renew_interval = int_or c.renew_interval default_leader_election.renew_interval;
  retry_interval = int_or c.retry_interval default_leader_election.retry_interval;
}

unfoldable pub apply_recovery : Recovery → Recovery
apply_recovery c = record c {
  interval = int_or c.interval default_recovery.interval;
  min_idle = int_or c.min_idle default_recovery.min_idle;
  batch = int_or c.batch default_recovery.batch;
}

unfoldable pub apply_log : Log → Log
apply_log c = record {
  level = text_or c.level default_log.level;
  format = text_or c.format default_log.format;
}

module _ ⦃fl : Float64⦄ where
  unfoldable pub apply_scheduler : Scheduler → Scheduler
  unfolding apply_leader_election
  apply_scheduler c = record c {
    policy = text_or c.policy default_scheduler.policy;
    ingest_batch = int_or c.ingest_batch default_scheduler.ingest_batch;
    ingest_block = int_or c.ingest_block default_scheduler.ingest_block;
    dispatch_batch = int_or c.dispatch_batch default_scheduler.dispatch_batch;
    idle_sleep = int_or c.idle_sleep default_scheduler.idle_sleep;
    metrics_addr = text_or c.metrics_addr default_scheduler.metrics_addr;
    default_tenant_weight =
        float_or c.default_tenant_weight default_scheduler.default_tenant_weight;
    state_flush_interval = int_or c.state_flush_interval default_scheduler.state_flush_interval;
    ingest_reclaim_interval =
        int_or c.ingest_reclaim_interval default_scheduler.ingest_reclaim_interval;
    ingest_reclaim_min_idle =
        int_or c.ingest_reclaim_min_idle default_scheduler.ingest_reclaim_min_idle;
    leader_election = apply_leader_election c.leader_election;
  }

  unfoldable pub apply_worker : Worker → Worker
  apply_worker c = record c {
    concurrency = int_or c.concurrency default_worker.concurrency;
    exec_mode = text_or c.exec_mode default_worker.exec_mode;
    block = int_or c.block default_worker.block;
    metrics_addr = text_or c.metrics_addr default_worker.metrics_addr;
    shutdown_grace = int_or c.shutdown_grace default_worker.shutdown_grace;
  }

  abbrev pub exec_or : ExecSpec → ExecSpec → ExecSpec
  exec_or x d = if is_null x.max_millis then d else x

  abbrev pub priority_or : PrioritySpec → PrioritySpec → PrioritySpec
  priority_or x d = if is_empty x.weights then d else x

  abbrev pub shares_or : List TenantShare → List TenantShare → List TenantShare
  shares_or x d = if is_empty x then d else x

  -- `== (DeadlineSpec{})`, and so on: every field is at its zero value.
  abbrev pub deadline_or : DeadlineSpec → DeadlineSpec → DeadlineSpec
  deadline_or x d =
      if is_null x.base_millis && is_null_float x.exec_multiplier && is_null x.jitter_millis
      then d
      else x

  abbrev pub burst_or : BurstSpec → BurstSpec → BurstSpec
  burst_or x d =
      if is_null_float x.base_rate_per_sec
        && is_null_float x.burst_rate_per_sec
        && is_null x.burst_duration
        && is_null x.burst_period
      then d
      else x

  abbrev pub heavy_tail_or : HeavyTailSpec → HeavyTailSpec → HeavyTailSpec
  heavy_tail_or x d =
      if is_null x.min_millis && is_null x.max_millis && is_null_float x.alpha then d else x

  unfoldable pub apply_workload : Workload → Workload
  apply_workload c = record c {
    type = text_or c.type default_workload.type;
    count = int_or c.count default_workload.count;
    id_prefix = text_or c.id_prefix default_workload.id_prefix;
    arrival_rate_per_sec = float_or c.arrival_rate_per_sec default_workload.arrival_rate_per_sec;
    exec = exec_or c.exec default_workload.exec;
    priority = priority_or c.priority default_workload.priority;
    deadline = deadline_or c.deadline default_workload.deadline;
    tenants = shares_or c.tenants default_workload.tenants;
    skew_tenants = shares_or c.skew_tenants default_workload.skew_tenants;
    burst = burst_or c.burst default_workload.burst;
    heavy_tail = heavy_tail_or c.heavy_tail default_workload.heavy_tail;
  }

  unfoldable pub apply_defaults : Config → Config
  unfolding apply_redis apply_streams apply_scheduler apply_worker apply_recovery apply_workload
      apply_log
  apply_defaults c = record {
    redis = apply_redis c.redis;
    streams = apply_streams c.streams;
    scheduler = apply_scheduler c.scheduler;
    worker = apply_worker c.worker;
    recovery = apply_recovery c.recovery;
    workload = apply_workload c.workload;
    log = apply_log c.log;
  }
