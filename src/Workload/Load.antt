-- ===== src/Workload/Load.antt =====
-- internal/workload/load.go: offered load, and the arrival rate that produces it; and Summarise of
-- workload.go.
use distributed_task_queue_s.Prelude.{
  ℕ, suc, ◌||◌, not, Option, none, some, List, [], ◌∷◌, length, Text, text_eq, ℤ, pos, ◌+ℤ◌, ltb_ℤ,
  leb_ℤ, lookup, insert, get_or, if◌then◌else◌,
}
use distributed_task_queue_s.Env.Float.{Float64}
use distributed_task_queue_s.Config.{Workload}
use distributed_task_queue_s.Config.Defaults.{float}
use distributed_task_queue_s.Config.Shares.{workload_bursty, not_positive}
use distributed_task_queue_s.Workload.{Spec, duration_seconds}

module _ ⦃fl : Float64⦄ where
  unfoldable pub mean_arrival_rate_per_sec : Workload → fl.F
  unfolding duration_seconds
  mean_arrival_rate_per_sec cfg =
      let period = duration_seconds cfg.burst.burst_period in
      let burst = duration_seconds cfg.burst.burst_duration in
      if not (text_eq cfg.type workload_bursty)
      then cfg.arrival_rate_per_sec
      else if not_positive period || fl.ltf burst (float 0) || fl.ltf period burst
      then cfg.burst.base_rate_per_sec
      else fl.divf
          (fl.addf (fl.mulf burst cfg.burst.burst_rate_per_sec)
            (fl.mulf (fl.subf period burst) cfg.burst.base_rate_per_sec))
          period

  -- `none` is an error.
  unfoldable pub with_arrival_rate : Workload → fl.F → Option Workload
  unfolding mean_arrival_rate_per_sec
  with_arrival_rate cfg target =
      let current = mean_arrival_rate_per_sec cfg in
      let factor = fl.divf target current in
      if not_positive target
      then none
      else if not (text_eq cfg.type workload_bursty)
      then some (record cfg { arrival_rate_per_sec = target })
      else if not_positive current
      then none
      else some (record cfg {
        burst = record cfg.burst {
          base_rate_per_sec = fl.mulf cfg.burst.base_rate_per_sec factor;
          burst_rate_per_sec = fl.mulf cfg.burst.burst_rate_per_sec factor;
        };
        arrival_rate_per_sec = target;
      })

  unfoldable pub capacity : fl.F → ℤ → fl.F
  capacity mean_exec_millis slots =
      if not_positive mean_exec_millis || leb_ℤ slots (pos 0)
      then float 0
      else fl.divf (fl.of_int slots) (fl.divf mean_exec_millis (float 1000))

  unfoldable pub offered_load : fl.F → fl.F → fl.F
  offered_load mean_arrival_rate c = if not_positive c then float 0 else fl.divf mean_arrival_rate c

  -- `none` is an error.
  unfoldable pub rate_for_load : fl.F → fl.F → ℤ → Option fl.F
  unfolding capacity
  rate_for_load load mean_exec_millis slots =
      let c = capacity mean_exec_millis slots in
      if not_positive c then none else if not_positive load then none else some (fl.mulf load c)

  pub record Summary : Type 0 where
    pub count : ℕ
    pub span : ℤ
    pub total_exec_ms : ℤ
    pub mean_exec_ms : fl.F
    pub max_exec_ms : ℤ
    pub tenant_counts : List (Text × ℕ)

  unfoldable pub summarise_loop : List Spec → Summary → Summary
  summarise_loop [] s = s
  summarise_loop (sp ∷ sps) s = summarise_loop sps (record s {
    total_exec_ms = s.total_exec_ms +ℤ sp.exec_millis;
    max_exec_ms = if ltb_ℤ s.max_exec_ms sp.exec_millis then sp.exec_millis else s.max_exec_ms;
    span = if ltb_ℤ s.span sp.offset then sp.offset else s.span;
    tenant_counts =
        insert sp.tenant_id (suc (get_or (lookup sp.tenant_id s.tenant_counts) 0)) s.tenant_counts;
  })

  unfoldable pub summarise : List Spec → Summary
  unfolding summarise_loop
  summarise specs =
      let s = summarise_loop specs (record {
        count = length specs;
        span = pos 0;
        total_exec_ms = pos 0;
        mean_exec_ms = float 0;
        max_exec_ms = pos 0;
        tenant_counts = [];
      }) in
      elim specs [
        | [] ↦ s
        | sp ∷ sps ↦ record s {
          mean_exec_ms = fl.divf (fl.of_int s.total_exec_ms) (float (length (sp ∷ sps)));
        }
      ]
