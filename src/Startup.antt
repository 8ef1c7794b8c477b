-- ===== src/Startup.antt =====
-- cmd/scheduler/main.go: from the configuration and the flags to a policy and a lease. What only
-- opens connections, serves metrics and waits is left out.
pub mod Ready
use distributed_task_queue_s.Prelude.{
  ℕ, ◌≡◌, ◌≢◌, ◌∙◌, refl, sym, ap, inl, inr, Bool, true, false, Bool-cases, Option-cases, ◌&&◌,
  ◌||◌, not, Option, none, some, is_some, List, [], ◌∷◌, ◌++◌, Text, text_eq, codes, ℤ, pos, negsuc,
  pos_part, neg_part, ltb_ℤ, leb_ℤ, ◌<ℤ◌, ◌≤ℤ◌, int_laws, if◌then◌else◌, arith,
}
use distributed_task_queue_s.Env.Float.{Float64}
use distributed_task_queue_s.Policy.Wfq
use distributed_task_queue_s.Policy.Key.{zero_padded}
use distributed_task_queue_s.Policy.Choose.{Chosen, choose, choose-valid, valid, usable, wfq_name}
use distributed_task_queue_s.Broker.Keys.{new_keys}
use distributed_task_queue_s.Lease.Options
use distributed_task_queue_s.Lease.Options.{Options, Lease, IsPaced}
use distributed_task_queue_s.Config.{Scheduler, Config}
use distributed_task_queue_s.Config.Defaults.{is_blank, float}
use distributed_task_queue_s.Config.Problem.{Problem, report}
use distributed_task_queue_s.Config.Shares.{not_positive}
use distributed_task_queue_s.Config.Validate.{check_tenant_weights, validate_config}
use distributed_task_queue_s.Config.Accepted.{
  IsAccepted, validate_config-IsAccepted, check_scheduler-valid, check_scheduler-default,
  check_scheduler-weights, check_leader_election-paced,
}

-- The flags that override a field; strconv.ParseBool has read the one for leader election, `none` if it was
-- not given.
pub record Flags : Type 0 where
  pub policy_name : Text
  pub metrics_addr : Text
  pub consumer : Text
  pub max_in_flight : ℤ
  pub enable_recovery : Bool
  pub leader_election : Option Bool
  pub lease_ttl : ℤ
  pub lease_renew : ℤ

unfoldable pub default_name : Option Text → ℕ → Text
default_name none pid = codes "scheduler" ++ b'-' ∷ zero_padded 1 (pos pid)
default_name (some host) pid =
    (if is_blank host then codes "scheduler" else host) ++ b'-' ∷ zero_padded 1 (pos pid)

-- The consumer's name.
unfoldable pub consumer_name : Option Text → ℕ → Flags → Text
unfolding default_name
consumer_name host pid f = if is_blank f.consumer then default_name host pid else f.consumer

abbrev pub flag_or : Option Bool → Bool → Bool
flag_or none b = b
flag_or (some on) b = on

module _ ⦃fl : Float64⦄ where
  unfoldable pub override_scheduler : Flags → Scheduler → Scheduler
  override_scheduler f s = record s {
    policy = if is_blank f.policy_name then s.policy else f.policy_name;
    metrics_addr = if is_blank f.metrics_addr then s.metrics_addr else f.metrics_addr;
    max_in_flight = if leb_ℤ (pos 0) f.max_in_flight then f.max_in_flight else s.max_in_flight;
    leader_election = record s.leader_election {
      enabled = flag_or f.leader_election s.leader_election.enabled;
      ttl = if ltb_ℤ (pos 0) f.lease_ttl then f.lease_ttl else s.leader_election.ttl;
      renew_interval =
          if ltb_ℤ (pos 0) f.lease_renew then f.lease_renew else s.leader_election.renew_interval;
    };
  }

  unfoldable pub override : Flags → Config → Config
  unfolding override_scheduler
  override f c = record c {
    scheduler = override_scheduler f c.scheduler;
    recovery = record c.recovery { enabled = f.enable_recovery && c.recovery.enabled };
  }

  unfoldable pub lease_options : Text → Config → Options
  lease_options name c = record {
    connected = true;
    holder = (new_keys c.streams).leader;
    epoch = (new_keys c.streams).leader_epoch;
    owner = name;
    ttl = c.scheduler.leader_election.ttl;
    renew = c.scheduler.leader_election.renew_interval;
    retry = c.scheduler.leader_election.retry_interval;
    wait_for_replicas = c.redis.sentinel.wait_for_replicas;
    wait_timeout = c.redis.sentinel.wait_timeout;
  }

  -- How the start of a scheduler ends: with the problems of its configuration, with an error of a
  -- constructor, or with what the engine is given.
  pub data Startup : Type 1 where
    configuration_error : List Problem → Startup
    no_policy : Startup
    no_lease : Options.Error → Startup
    ready : Config → Chosen → Option Lease → Startup

  unfoldable pub start_lease : Option Text → ℕ → Text → Config → Chosen → Startup
  unfolding lease_options
  start_lease host pid name c ch =
      if c.scheduler.leader_election.enabled
      then (elim (Options.new host pid (lease_options name c)) [
        | Options.ok l ↦ ready c ch (some l)
        | Options.err e ↦ no_lease e
      ])
      else ready c ch none

  unfoldable pub start_policy : Option Text → ℕ → Text → Config → Startup
  unfolding start_lease
  start_policy host pid name c =
      elim (choose c.scheduler.policy c.scheduler.tenant_weights
        c.scheduler.default_tenant_weight) [
          | none ↦ no_policy
          | some ch ↦ start_lease host pid name c ch
        ]

  unfoldable pub start_config : Option Text → ℕ → Text → Config → List Problem → Startup
  unfolding start_policy
  start_config host pid name c [] = start_policy host pid name c
  start_config host pid name c (p ∷ ps) = configuration_error (p ∷ ps)

  -- main, on the configuration that the common flags left.
  unfoldable pub start : Option Text → ℕ → Flags → Config → Startup
  unfolding start_config consumer_name override
  start host pid f c =
      let c' = override f c in
      start_config host pid (consumer_name host pid f) c' (validate_config c')
