-- ===== src/Startup/Ready.antt =====
-- What Validate accepts, main of cmd/scheduler can start.
use distributed_task_queue_s.Prelude.{
  ℕ, ◌≡◌, ◌⊎◌, refl, inl, inr, true, false, Bool-cases, Option, none, some, is_some, List, [], ◌∷◌,
  Text, codes, pos, ltb_ℤ, arith,
}
use distributed_task_queue_s.Env.Float.{Float64}
use distributed_task_queue_s.Policy.Wfq
use distributed_task_queue_s.Policy.Choose.{Chosen, choose, choose-valid, usable}
use distributed_task_queue_s.Broker.Keys.{key, new_keys}
use distributed_task_queue_s.Lease.Options
use distributed_task_queue_s.Lease.Options.{Lease, IsPaced}
use distributed_task_queue_s.Config.{Scheduler, Config}
use distributed_task_queue_s.Config.Defaults.{float, is_blank}
use distributed_task_queue_s.Config.Problem.{report}
use distributed_task_queue_s.Config.Validate.{
  check_tenant_weights, check_redis, check_sentinel, check_scheduler, check_leader_election,
  validate_config,
}
use distributed_task_queue_s.Config.Accepted.{
  IsAccepted, validate_config-IsAccepted, check_scheduler-valid, check_scheduler-default,
  check_scheduler-weights, check_leader_election-paced,
}
use distributed_task_queue_s.Startup.{
  Flags, override, lease_options, Startup, no_lease, ready, start_lease, start_policy, start_config,
  start, consumer_name,
}

module _ ⦃fl : Float64⦄ where
  check_weights-none :
      (ws : List (Text × fl.F)) → check_tenant_weights ws ≡ [] → Wfq.check_weights ws ≡ none
  unfolding check_tenant_weights Wfq.check_weights report
  check_weights-none [] h = refl
  check_weights-none ((tenant, w) ∷ ws) h = ground (arith, check_weights-none ws)

  new-usable :
      (ws : List (Text × fl.F)) (d : fl.F)
      → check_tenant_weights ws ≡ []
      → fl.ltf (float 0) d ≡ true
      → usable (Wfq.new ws d) ≡ true
  unfolding Wfq.new
  new-usable ws d h p = ground (arith, check_weights-none ws h)

  choose-accepted :
      (c : Scheduler)
      → check_scheduler c ≡ []
      → is_some (choose c.policy c.tenant_weights c.default_tenant_weight) ≡ true
  choose-accepted c h =
      rw
        (
          choose-valid c.policy c.tenant_weights c.default_tenant_weight,
          check_scheduler-valid c h,
          new-usable c.tenant_weights c.default_tenant_weight (check_scheduler-weights c h)
              (check_scheduler-default c h),
        )
        (ground arith)

  -- The lease fits the configuration: there is one exactly if leader election is on, it has the
  -- configured intervals, and they are usable.
  pub IsLed : Config → Option Lease → Type 0
  IsLed c none = c.scheduler.leader_election.enabled ≡ false
  IsLed c (some l) =
      (c.scheduler.leader_election.enabled ≡ true)
      × (l.ttl ≡ c.scheduler.leader_election.ttl)
      × (l.renew ≡ c.scheduler.leader_election.renew_interval)
      × (l.retry ≡ c.scheduler.leader_election.retry_interval)
      × IsPaced l

  -- Everything is built; or the lease is refused since the count of replicas to wait for is
  -- negative, which Validate looks at only if Sentinel is on.
  abbrev pub Outcome : Config → Startup → Type 1
  Outcome c r =
      ((ch : Chosen) × (l : Option Lease) × (r ≡ ready c ch l) × IsLed c l)
      ⊎ ((r ≡ no_lease Options.wait_negative)
          × (c.redis.sentinel.enabled ≡ false)
          × (ltb_ℤ c.redis.sentinel.wait_for_replicas (pos 0) ≡ true))

  wait_negative-sentinel :
      (c : Config)
      → check_redis c.redis ≡ []
      → ltb_ℤ c.redis.sentinel.wait_for_replicas (pos 0) ≡ true
      → c.redis.sentinel.enabled ≡ false
  unfolding check_redis check_sentinel report
  wait_negative-sentinel c h n = ground arith

  key-nonblank : (ns part : Text) → is_blank (key ns (part ∷ [])) ≡ false
  unfolding key
  key-nonblank [] part = refl
  key-nonblank (c ∷ ns) part = refl

  lease_options-IsConfigured :
      (name : Text) (c : Config)
      → c.scheduler.leader_election.enabled ≡ true
      → check_leader_election c.scheduler.leader_election ≡ []
      → Options.IsConfigured (lease_options name c)
  unfolding lease_options new_keys
  lease_options-IsConfigured name c on h =
      let paced = check_leader_election-paced c.scheduler.leader_election on h in
      record {
        connected = refl;
        holder = key-nonblank c.streams.namespace (codes "leader");
        epoch = key-nonblank c.streams.namespace (codes "leader_epoch");
        renews = paced.1;
        in_time = paced.2;
        retries = paced.3;
      }

  start_lease-ready :
      (host : Option Text) (pid : ℕ) (name : Text) (c : Config) (ch : Chosen) (l : Lease)
      → c.scheduler.leader_election.enabled ≡ true
      → Options.new host pid (lease_options name c) ≡ Options.ok l
      → start_lease host pid name c ch ≡ ready c ch (some l)
  unfolding start_lease
  start_lease-ready host pid name c ch l on e = simp (on, e)

  start_lease-Outcome :
      (host : Option Text) (pid : ℕ) (name : Text) (c : Config) (ch : Chosen)
      → IsAccepted c
      → Outcome c (start_lease host pid name c ch)
  unfolding IsLed start_lease lease_options
  start_lease-Outcome host pid name c ch a = elim (Bool-cases c.scheduler.leader_election.enabled) [
    | inr off ↦ inl (ch, none, rw off refl, off)
    | inl on ↦ leads on
  ]
    where
      leads :
          c.scheduler.leader_election.enabled ≡ true → Outcome c (start_lease host pid name c ch)
      leads on =
          let configured = lease_options-IsConfigured name c on a.leader_election in
          elim (Bool-cases (ltb_ℤ c.redis.sentinel.wait_for_replicas (pos 0))) [
            | inl n ↦ inr (
              rw (on, Options.new-wait_negative host pid (lease_options name c) configured n) refl,
              wait_negative-sentinel c a.redis n,
              n,
            )
            | inr n ↦
                (let (l, e, made) =
                    Options.new-IsMade host pid (lease_options name c) configured n in
                  inl (
                    ch,
                    some l,
                    start_lease-ready host pid name c ch l on e,
                    (on, made.ttl, made.renew, made.retry, made.paced),
                  ))
          ]

  start_policy-Outcome :
      (host : Option Text) (pid : ℕ) (name : Text) (c : Config)
      → IsAccepted c
      → Outcome c (start_policy host pid name c)
  unfolding start_policy
  start_policy-Outcome host pid name c a =
      by_choice
        (choose c.scheduler.policy c.scheduler.tenant_weights c.scheduler.default_tenant_weight)
        refl
    where
      by_choice :
          (o : Option Chosen)
          → choose c.scheduler.policy c.scheduler.tenant_weights c.scheduler.default_tenant_weight
            ≡ o
          → Outcome c (start_policy host pid name c)
      by_choice none e = ground (arith, e, choose-accepted c.scheduler a.scheduler)
      by_choice (some ch) e = rw (e, start_policy) (start_lease-Outcome host pid name c ch a)

  -- A scheduler starts on every configuration that Validate accepts after the flags: New finds the
  -- policy, and the lease, if leader election is on, has the configured intervals, all positive and
  -- the renewal within the time to live. The one exception is a negative count of replicas to wait
  -- for while Sentinel is off, which Validate does not look at and lease.New refuses.
  pub start-Outcome :
      (host : Option Text) (pid : ℕ) (f : Flags) (c : Config)
      → validate_config (override f c) ≡ []
      → Outcome (override f c) (start host pid f c)
  unfolding start
  start-Outcome host pid f c h =
      rw (h, start_config)
        (start_policy-Outcome host pid (consumer_name host pid f) (override f c)
          (validate_config-IsAccepted (override f c) h))
