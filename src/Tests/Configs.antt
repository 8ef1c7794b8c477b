-- ===== src/Tests/Configs.antt =====
-- A configuration with floats that are integers, and the start of a scheduler on it.
use distributed_task_queue_s.Prelude.{
  ◌≡◌, ◌≢◌, refl, true, none, some, [], ◌∷◌, All, codes, ℤ, pos, negsuc, text_eq, ◌+ℤ◌, ◌-ℤ◌, arith,
}
use distributed_task_queue_s.Broker.Keys.{new_keys, all_keys, IsPlain, all_keys-new_keys}
use distributed_task_queue_s.Config.{Config, Workload, Streams}
use distributed_task_queue_s.Config.Defaults.{
  default_config, default_workload, default_streams, default_redis, no_sentinel,
}
use distributed_task_queue_s.Config.Shares
use distributed_task_queue_s.Config.Shares.{validate_workload}
use distributed_task_queue_s.Config.Validate
use distributed_task_queue_s.Config.Validate.{validate_config}
use distributed_task_queue_s.Config.Problem.{report}
use distributed_task_queue_s.Policy.Choose.{choose}
use distributed_task_queue_s.Lease.Options
use distributed_task_queue_s.Startup.{
  Flags, override, start, start_config, start_policy, start_lease, no_lease,
}
use distributed_task_queue_s.Startup.Ready.{Outcome, start-Outcome}
use distributed_task_queue_s.Tests.Numbers.{integers}

-- One tenant, since the shares of several are fractions.
abbrev pub sample_workload : Workload
sample_workload = record default_workload {
  count = pos 3;
  tenants = record { id = codes "A"; share = pos 1 } ∷ [];
}

pub sample_workload_lem : validate_workload sample_workload ≡ []
unfolding validate_workload Shares.valid_workload Shares.check_exec Shares.check_priority
    Shares.check_weights Shares.check_deadline Shares.check_tenants Shares.validate_shares text_eq
    report ◌+ℤ◌ ◌-ℤ◌
sample_workload_lem = refl

-- Sentinel is off, and `n` replicas are to be waited for.
abbrev sample : ℤ → Config
sample n = record default_config {
  workload = sample_workload;
  redis = record default_redis { sentinel = record no_sentinel { wait_for_replicas = n } };
}

-- Nothing but a policy is overridden.
abbrev with_edf : Flags
with_edf = record {
  policy_name = codes "edf";
  metrics_addr = [];
  consumer = [];
  max_in_flight = negsuc 0;
  enable_recovery = true;
  leader_election = none;
  lease_ttl = pos 0;
  lease_renew = pos 0;
}

sample_lem : (n : ℤ) → validate_config (override with_edf (sample n)) ≡ []
unfolding validate_config override Validate.check_redis Validate.check_streams
    Validate.check_scheduler Validate.check_slots Validate.check_reclaim
    Validate.check_leader_election Validate.check_worker Validate.check_recovery Validate.check_log
    validate_workload Shares.valid_workload Shares.check_exec Shares.check_priority
    Shares.check_weights Shares.check_deadline Shares.check_tenants Shares.validate_shares text_eq
    ◌+ℤ◌ ◌-ℤ◌
sample_lem n = refl

start-Outcome_example :
    Outcome
      (override with_edf (sample (pos 0)))
      (start (some (codes "host")) 7 with_edf (sample (pos 0)))
start-Outcome_example =
    start-Outcome (some (codes "host")) 7 with_edf (sample (pos 0)) (sample_lem (pos 0))

-- A negative count of replicas passes Validate while Sentinel is off, and New refuses it.
negative_wait_lem : start none 7 with_edf (sample (negsuc 0)) ≡ no_lease Options.wait_negative
unfolding start start_config start_policy start_lease choose Options.new new_keys validate_config
    override Validate.check_redis Validate.check_streams Validate.check_scheduler
    Validate.check_slots Validate.check_reclaim Validate.check_leader_election Validate.check_worker
    Validate.check_recovery Validate.check_log validate_workload Shares.valid_workload
    Shares.check_exec Shares.check_priority Shares.check_weights Shares.check_deadline
    Shares.check_tenants Shares.validate_shares text_eq ◌+ℤ◌ ◌-ℤ◌
negative_wait_lem = refl

abbrev other_streams : Streams
other_streams = record default_streams { namespace = codes "t2" }

default_streams-IsPlain : IsPlain default_streams.namespace
default_streams-IsPlain = (ground arith, (ground arith, tt))

other_streams-IsPlain : IsPlain other_streams.namespace
other_streams-IsPlain = (ground arith, (ground arith, tt))

all_keys-new_keys_example :
    All
      (λ k. All (λ j. k ≢ j) (all_keys (new_keys other_streams)))
      (all_keys (new_keys default_streams))
all_keys-new_keys_example =
    all_keys-new_keys default_streams other_streams default_streams-IsPlain other_streams-IsPlain
      λ e. ground arith
