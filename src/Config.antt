-- ===== src/Config.antt =====
-- internal/config/config.go and workload.go: the configuration document. A duration is a number of
-- nanoseconds.
pub mod Defaults
pub mod Apply
pub mod Idempotent
pub mod Problem
pub mod Shares
pub mod Validate
pub mod Load
pub mod Accepted
pub mod Drawable
use distributed_task_queue_s.Prelude.{Bool, List, Text, ℤ}
use distributed_task_queue_s.Env.Float.{Float64}

abbrev pub Duration : Type 0
Duration = ℤ

pub record Sentinel : Type 0 where
  pub enabled : Bool
  pub master_name : Text
  pub addrs : List Text
  pub password : Text
  pub wait_for_replicas : ℤ
  pub wait_timeout : Duration

pub record Redis : Type 0 where
  pub addr : Text
  pub password : Text
  pub db : ℤ
  pub dial_timeout : Duration
  pub read_timeout : Duration
  pub write_timeout : Duration
  pub pool_size : ℤ
  pub sentinel : Sentinel

pub record Streams : Type 0 where
  pub namespace : Text
  pub ingress_stream : Text
  pub exec_stream : Text
  pub results_stream : Text
  pub dead_letter_stream : Text
  pub scheduler_group : Text
  pub worker_group : Text
  pub max_len : ℤ

pub record LeaderElection : Type 0 where
  pub enabled : Bool
  pub ttl : Duration
  pub renew_interval : Duration
  pub retry_interval : Duration

pub record Recovery : Type 0 where
  pub enabled : Bool
  pub interval : Duration
  pub min_idle : Duration
  pub batch : ℤ
  pub max_retries : ℤ

pub record Log : Type 0 where
  pub level : Text
  pub format : Text

pub record ExecSpec : Type 0 where
  pub min_millis : ℤ
  pub max_millis : ℤ

module _ ⦃fl : Float64⦄ where
  pub record Scheduler : Type 0 where
    pub policy : Text
    pub ingest_batch : ℤ
    pub ingest_block : Duration
    pub dispatch_batch : ℤ
    pub idle_sleep : Duration
    pub max_in_flight : ℤ
    pub metrics_addr : Text
    pub tenant_weights : List (Text × fl.F)
    pub default_tenant_weight : fl.F
    pub state_flush_interval : Duration
    pub leader_election : LeaderElection
    pub ingest_reclaim_interval : Duration
    pub ingest_reclaim_min_idle : Duration

  pub record Worker : Type 0 where
    pub name : Text
    pub concurrency : ℤ
    pub exec_mode : Text
    pub block : Duration
    pub metrics_addr : Text
    pub fail_before_ack_rate : fl.F
    pub fail_rate : fl.F
    pub fail_seed : ℤ
    pub shutdown_grace : Duration

  pub record PrioritySpec : Type 0 where
    pub weights : List fl.F

  pub record DeadlineSpec : Type 0 where
    pub base_millis : ℤ
    pub exec_multiplier : fl.F
    pub jitter_millis : ℤ

  pub record TenantShare : Type 0 where
    pub id : Text
    pub share : fl.F

  pub record BurstSpec : Type 0 where
    pub base_rate_per_sec : fl.F
    pub burst_rate_per_sec : fl.F
    pub burst_duration : Duration
    pub burst_period : Duration

  pub record HeavyTailSpec : Type 0 where
    pub min_millis : ℤ
    pub max_millis : ℤ
    pub alpha : fl.F

  pub record Workload : Type 0 where
    pub type : Text
    pub seed : ℤ
    pub count : ℤ
    pub id_prefix : Text
    pub arrival_rate_per_sec : fl.F
    pub max_retries : ℤ
    pub exec : ExecSpec
    pub priority : PrioritySpec
    pub deadline : DeadlineSpec
    pub tenants : List TenantShare
    pub skew_tenants : List TenantShare
    pub burst : BurstSpec
    pub heavy_tail : HeavyTailSpec

  pub record Config : Type 0 where
    pub redis : Redis
    pub streams : Streams
    pub scheduler : Scheduler
    pub worker : Worker
    pub recovery : Recovery
    pub workload : Workload
    pub log : Log
