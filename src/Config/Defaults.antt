-- ===== src/Config/Defaults.antt =====
-- internal/config/defaults.go: the built-in configuration, and what applyDefaults patches in a
-- document that leaves fields at their zero value. A literal p/q is the float nearest to it, which
-- is also the quotient of the two integers.
use distributed_task_queue_s.Prelude.{
  ℕ, ◌*◌, ◌==◌, Bool, true, false, ◌&&◌, not, List, [], ◌∷◌, Text, codes, ℤ, pos, negsuc,
  if◌then◌else◌,
}
use distributed_task_queue_s.Env.Float.{Float64}
use distributed_task_queue_s.Config.{
  Duration, Sentinel, Redis, Streams, LeaderElection, Recovery, Log, Scheduler, Worker, TenantShare,
  Workload, Config,
}

abbrev pub milliseconds : ℕ → Duration
milliseconds n = pos (n * 1000000)

abbrev pub seconds : ℕ → Duration
seconds n = pos (n * 1000000000)

abbrev pub no_sentinel : Sentinel
no_sentinel = record {
  enabled = false;
  master_name = [];
  addrs = [];
  password = [];
  wait_for_replicas = pos 0;
  wait_timeout = pos 0;
}

abbrev pub default_redis : Redis
default_redis = record {
  addr = codes "localhost:6379";
  password = [];
  db = pos 0;
  dial_timeout = seconds 5;
  read_timeout = seconds 3;
  write_timeout = seconds 3;
  pool_size = pos 32;
  sentinel = no_sentinel;
}

abbrev pub default_streams : Streams
default_streams = record {
  namespace = codes "tq";
  ingress_stream = codes "ingress";
  exec_stream = codes "exec";
  results_stream = codes "results";
  dead_letter_stream = codes "dead";
  scheduler_group = codes "schedulers";
  worker_group = codes "workers";
  max_len = pos 0;
}

abbrev pub default_leader_election : LeaderElection
default_leader_election = record {
  enabled = true;
  ttl = seconds 5;
  renew_interval = milliseconds 1500;
  retry_interval = seconds 1;
}

abbrev pub default_recovery : Recovery
default_recovery = record {
  enabled = true;
  interval = milliseconds 500;
  min_idle = seconds 10;
  batch = pos 128;
  max_retries = pos 3;
}

abbrev pub default_log : Log
default_log = record { level = codes "info"; format = codes "text" }

-- A field that is at its zero value takes the default.
abbrev pub is_blank : Text → Bool
is_blank [] = true
is_blank (c ∷ s) = false

abbrev pub is_null : ℤ → Bool
is_null (pos n) = n == 0
is_null (negsuc n) = false

abbrev pub is_empty {ℓ} : {A : Type ℓ} → List A → Bool
is_empty [] = true
is_empty (x ∷ xs) = false

abbrev pub text_or : Text → Text → Text
text_or x d = if is_blank x then d else x

abbrev pub int_or : ℤ → ℤ → ℤ
int_or x d = if is_null x then d else x

module _ ⦃fl : Float64⦄ where
  abbrev pub float : ℕ → fl.F
  float n = fl.of_int (pos n)

  -- n hundredths.
  abbrev pub hundredths : ℕ → fl.F
  hundredths n = fl.divf (float n) (float 100)

  -- `x == 0`.
  abbrev pub is_null_float : fl.F → Bool
  is_null_float x = not (fl.ltf x (float 0)) && not (fl.ltf (float 0) x)

  abbrev pub float_or : fl.F → fl.F → fl.F
  float_or x d = if is_null_float x then d else x

  abbrev pub default_scheduler : Scheduler
  default_scheduler = record {
    policy = codes "fifo";
    ingest_batch = pos 256;
    ingest_block = milliseconds 200;
    dispatch_batch = pos 32;
    idle_sleep = milliseconds 2;
    max_in_flight = pos 64;
    metrics_addr = codes ":9101";
    tenant_weights =
        (codes "A", float 1)
        ∷ (codes "B", float 1)
        ∷ (codes "C", float 1)
        ∷ (codes "D", float 1)
        ∷ (codes "E", float 1)
        ∷ [];
    default_tenant_weight = float 1;
    state_flush_interval = seconds 1;
    leader_election = default_leader_election;
    ingest_reclaim_interval = seconds 1;
    ingest_reclaim_min_idle = seconds 2;
  }

  abbrev pub default_worker : Worker
  default_worker = record {
    name = [];
    concurrency = pos 4;
    exec_mode = codes "sleep";
    block = milliseconds 500;
    metrics_addr = codes ":9102";
    fail_before_ack_rate = float 0;
    fail_rate = float 0;
    fail_seed = pos 0;
    shutdown_grace = seconds 15;
  }

  abbrev pub share : Text → ℕ → TenantShare
  share id n = record { id = id; share = hundredths n }

  abbrev pub default_workload : Workload
  default_workload = record {
    type = codes "uniform";
    seed = pos 42;
    count = pos 500;
    id_prefix = codes "task";
    arrival_rate_per_sec = float 120;
    max_retries = pos 3;
    exec = record { min_millis = pos 40; max_millis = pos 60 };
    priority = record { weights = float 40 ∷ float 25 ∷ float 20 ∷ float 10 ∷ float 5 ∷ [] };
    deadline = record { base_millis = pos 250; exec_multiplier = float 3; jitter_millis = pos 250 };
    tenants =
        share (codes "A") 20
        ∷ share (codes "B") 20
        ∷ share (codes "C") 20
        ∷ share (codes "D") 20
        ∷ share (codes "E") 20
        ∷ [];
    skew_tenants =
        share (codes "A") 90
        ∷ share (codes "B") 3
        ∷ share (codes "C") 3
        ∷ share (codes "D") 2
        ∷ share (codes "E") 2
        ∷ [];
    burst = record {
      base_rate_per_sec = float 60;
      burst_rate_per_sec = float 600;
      burst_duration = milliseconds 500;
      burst_period = seconds 2;
    };
    heavy_tail = record {
      min_millis = pos 15;
      max_millis = pos 4000;
      alpha = fl.divf (float 13) (float 10);
    };
  }

  -- Default.
  abbrev pub default_config : Config
  default_config = record {
    redis = default_redis;
    streams = default_streams;
    scheduler = default_scheduler;
    worker = default_worker;
    recovery = default_recovery;
    workload = default_workload;
    log = default_log;
  }
