-- ===== src/Workload/Generate.antt =====
-- Generate of internal/workload/workload.go and the draws that it makes, with the source of random
-- numbers passed along. Offsets have no upper
-- bound; what goes into Int63n does.
use distributed_task_queue_s.Prelude.{
  ℕ, zero, suc, ◌||◌, ltb, wrap_int64, Option, none, some, List, [], ◌∷◌, ◌++◌, Text, text_eq, ℤ,
  pos, pos_part, ◌+ℤ◌, ◌-ℤ◌, ltb_ℤ, leb_ℤ, if◌then◌else◌,
}
use distributed_task_queue_s.Env.Float.{Float64}
use distributed_task_queue_s.Env.Random.{Random}
use distributed_task_queue_s.Policy.Key.{zero_padded}
use distributed_task_queue_s.Config.{TenantShare, HeavyTailSpec, Workload}
use distributed_task_queue_s.Config.Defaults.{float}
use distributed_task_queue_s.Config.Shares.{
  workload_uniform, workload_bursty, workload_heavy_tailed, active_tenants, not_positive,
}
use distributed_task_queue_s.Workload.{
  Spec, arrival_is_stochastic, index, in_burst, shares_of, build_cdf, pick, validate, Result, ok,
  err, panic,
}

module _ ⦃fl : Float64⦄ ⦃random : Random⦄ where
  -- A draw in [0,1), without the zero.
  abbrev pub guard_zero : fl.F → fl.F
  guard_zero u = if not_positive u then random.smallest else u

  unfoldable pub exponential : fl.F → random.Source → random.Source × ℤ
  exponential rate_per_sec s =
      let (s', u) = random.float64 s in
      let seconds = fl.divf (fl.subf (float 0) (random.log (guard_zero u))) rate_per_sec in
      (s', random.to_int (fl.mulf seconds (float 1000000000)))

  unfoldable pub next_gap : Workload → ℤ → random.Source → random.Source × ℤ
  unfolding exponential in_burst
  next_gap cfg elapsed s =
      if text_eq cfg.type workload_uniform
      then (s, random.to_int (fl.divf (float 1000000000) cfg.arrival_rate_per_sec))
      else if text_eq cfg.type workload_bursty
      then exponential
          (if in_burst elapsed cfg.burst
            then cfg.burst.burst_rate_per_sec
            else cfg.burst.base_rate_per_sec)
          s
      else exponential cfg.arrival_rate_per_sec s

  unfoldable pub pareto_millis : HeavyTailSpec → random.Source → random.Source × ℤ
  pareto_millis ht s =
      let (s', u) = random.float64 s in
      let v =
        fl.mulf (fl.of_int ht.min_millis)
          (random.pow (guard_zero u) (fl.divf (fl.subf (float 0) (float 1)) ht.alpha)) in
      (s', if fl.ltf (fl.of_int ht.max_millis) v then ht.max_millis else random.to_int v)

  -- Int63n panics, which is `none`, unless its argument is positive.
  unfoldable pub int63n_or_panic : ℤ → random.Source → Option (random.Source × ℤ)
  int63n_or_panic n s = if leb_ℤ n (pos 0) then none else some (random.int63n n s)

  abbrev pub add_draw : ℤ → Option (random.Source × ℤ) → Option (random.Source × ℤ)
  add_draw n none = none
  add_draw n (some (s, r)) = some (s, n +ℤ r)

  unfoldable pub uniform_millis : ℤ → ℤ → random.Source → Option (random.Source × ℤ)
  unfolding int63n_or_panic
  uniform_millis min_millis max_millis s =
      let span = wrap_int64 (max_millis -ℤ min_millis) in
      if leb_ℤ span (pos 0)
      then some (s, max_millis)
      else add_draw min_millis (int63n_or_panic (wrap_int64 (span +ℤ pos 1)) s)

  unfoldable pub next_exec_millis : Workload → random.Source → Option (random.Source × ℤ)
  unfolding pareto_millis uniform_millis
  next_exec_millis cfg s =
      if text_eq cfg.type workload_heavy_tailed
      then some (pareto_millis cfg.heavy_tail s)
      else uniform_millis cfg.exec.min_millis cfg.exec.max_millis s

  unfoldable pub next_jitter : ℤ → random.Source → Option (random.Source × ℤ)
  unfolding int63n_or_panic
  next_jitter jitter_millis s =
      if ltb_ℤ (pos 0) jitter_millis
      then int63n_or_panic (wrap_int64 (jitter_millis +ℤ pos 1)) s
      else some (s, pos 0)

  -- What one round of the loop works with.
  pub record Plan : Type 0 where
    pub cfg : Workload
    pub tenants : List TenantShare
    pub tenant_cdf : List fl.F
    pub prio_cdf : List fl.F

  unfoldable pub advance : Plan → ℕ → ℤ → random.Source → random.Source × ℤ
  unfolding next_gap arrival_is_stochastic
  advance p i elapsed s =
      if ltb 0 i || arrival_is_stochastic p.cfg.type
      then (let (s', gap) = next_gap p.cfg elapsed s in (s', elapsed +ℤ gap))
      else (s, elapsed)

  unfoldable pub task_id : Workload → ℕ → Text
  task_id cfg i = cfg.id_prefix ++ b'-' ∷ zero_padded 6 (pos i)

  abbrev pub spec_of : Plan → ℕ → ℤ → Text → ℤ → fl.F → ℤ → Spec
  spec_of p i elapsed tenant exec_millis u jitter = record {
    id = task_id p.cfg i;
    tenant_id = tenant;
    offset = elapsed;
    exec_millis = exec_millis;
    priority = pick u p.prio_cdf;
    deadline_slack_millis =
        p.cfg.deadline.base_millis
        +ℤ random.to_int
            (random.round (fl.mulf (fl.of_int exec_millis) p.cfg.deadline.exec_multiplier))
        +ℤ jitter;
    max_retries = p.cfg.max_retries;
  }

  -- Task i, after its arrival time and its tenant; `none` is a panic.
  unfoldable pub draw : Plan → ℕ → ℤ → Text → random.Source → Option (random.Source × Spec)
  unfolding next_exec_millis pick next_jitter task_id
  draw p i elapsed tenant s = elim (next_exec_millis p.cfg s) [
    | none ↦ none
    | some (s1, exec_millis) ↦
        let (s2, u) = random.float64 s1 in
        elim (next_jitter p.cfg.deadline.jitter_millis s2) [
          | none ↦ none
          | some (s3, jitter) ↦ some (s3, spec_of p i elapsed tenant exec_millis u jitter)
        ]
  ]

  abbrev pub append_spec : Spec → Result → Result
  append_spec spec (ok specs) = ok (spec ∷ specs)
  append_spec spec (err e) = err e
  append_spec spec panic = panic

  -- The last `n` rounds, from index i on.
  unfoldable pub rounds : Plan → ℕ → ℕ → ℤ → random.Source → Result
  rounds p zero i elapsed s = ok []
  rounds p (suc n) i elapsed s =
      let (s1, arrival) = advance p i elapsed s in
      let (s2, u) = random.float64 s1 in
      elim (index p.tenants (pick u p.tenant_cdf)) [
        | none ↦ panic
        | some tenant ↦ (elim (draw p i arrival tenant.id s2) [
          | none ↦ panic
          | some (s3, spec) ↦ append_spec spec (rounds p n (suc i) arrival s3)
        ])
      ]

  unfoldable pub plan_of : Workload → Plan
  plan_of cfg = record {
    cfg = cfg;
    tenants = active_tenants cfg;
    tenant_cdf = build_cdf (shares_of (active_tenants cfg));
    prio_cdf = build_cdf cfg.priority.weights;
  }

  unfoldable pub generate : Workload → Result
  generate cfg = elim (validate cfg) [
    | some e ↦ err e
    | none ↦ rounds (plan_of cfg) (pos_part cfg.count) 0 (pos 0) (random.source cfg.seed)
  ]
