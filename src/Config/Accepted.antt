-- ===== src/Config/Accepted.antt =====
-- What follows from a configuration in which Validate finds no problem, part by part.
use distributed_task_queue_s.Prelude.{◌≡◌, true, [], pos, ◌<ℤ◌, arith}
use distributed_task_queue_s.Env.Float.{Float64}
use distributed_task_queue_s.Policy.Choose.{valid}
use distributed_task_queue_s.Config.{LeaderElection, Scheduler, Config}
use distributed_task_queue_s.Config.Defaults.{float}
use distributed_task_queue_s.Config.Problem.{report, append_none}
use distributed_task_queue_s.Config.Shares.{validate_workload}
use distributed_task_queue_s.Config.Validate.{
  check_redis, check_streams, check_leader_election, check_recovery, check_log, check_scheduler,
  check_slots, check_reclaim, check_worker, check_tenant_weights, validate_config,
}

module _ ⦃fl : Float64⦄ where
  pub record IsAccepted (c : Config) : Type 0 where
    pub redis : check_redis c.redis ≡ []
    pub scheduler : check_scheduler c.scheduler ≡ []
    pub leader_election : check_leader_election c.scheduler.leader_election ≡ []
    pub workload : validate_workload c.workload ≡ []

  pub validate_config-IsAccepted : (c : Config) → validate_config c ≡ [] → IsAccepted c
  unfolding validate_config
  validate_config-IsAccepted c h =
      let (h1, log) = append_none _ (check_log c.log) h in
      let (h2, workload) = append_none _ (validate_workload c.workload) h1 in
      let (h3, recovery) = append_none _ (check_recovery c.recovery) h2 in
      let (h4, worker) = append_none _ (check_worker c.worker) h3 in
      let (h5, election) = append_none _ (check_leader_election c.scheduler.leader_election) h4 in
      let (h6, reclaim) = append_none _ (check_reclaim c.scheduler) h5 in
      let (h7, slots) = append_none _ (check_slots c.worker) h6 in
      let (h8, scheduler) = append_none _ (check_scheduler c.scheduler) h7 in
      let (redis, streams) = append_none _ (check_streams c.streams) h8 in
      record {
        redis = redis;
        scheduler = scheduler;
        leader_election = election;
        workload = workload;
      }

  pub check_scheduler-valid : (c : Scheduler) → check_scheduler c ≡ [] → valid c.policy ≡ true
  unfolding check_scheduler report
  check_scheduler-valid c h = ground arith

  pub check_scheduler-default :
      (c : Scheduler) → check_scheduler c ≡ [] → fl.ltf (float 0) c.default_tenant_weight ≡ true
  unfolding check_scheduler report
  check_scheduler-default c h = ground arith

  pub check_scheduler-weights :
      (c : Scheduler) → check_scheduler c ≡ [] → check_tenant_weights c.tenant_weights ≡ []
  unfolding check_scheduler report
  check_scheduler-weights c h = ground arith

  pub check_leader_election-paced :
      (c : LeaderElection)
      → c.enabled ≡ true
      → check_leader_election c ≡ []
      → (pos 0 <ℤ c.ttl)
        × (pos 0 <ℤ c.renew_interval)
        × (c.renew_interval <ℤ c.ttl)
        × (pos 0 <ℤ c.retry_interval)
  unfolding check_leader_election report
  check_leader_election-paced c e h = ground arith
