-- ===== src/Bench/Summary.antt =====
-- internal/bench/summary.go: the aggregate record of one experiment. The time of the summary is left
-- out. A NaN is `none`; the throughput of a positive span is no NaN and not infinite, so the code's
-- last test of it changes nothing and is left out too.
use distributed_task_queue_s.Prelude.{
  ℕ, ◌*◌, inl, inr, Bool, Bool-cases, ◌&&◌, not, Option, List, [], ◌∷◌, All, length, Text, ℤ, pos,
  ◌*ℤ◌, ◌-ℤ◌, -ℤ_parts, ◌≤ℤ◌, ltb_ℤ, lookup, get_or, if◌then◌else◌, arith,
}
use distributed_task_queue_s.Env.Float.{Float64}
use distributed_task_queue_s.Domain.Time.{Time, sub, after, max_duration, min_duration}
use distributed_task_queue_s.Domain.Result.{Result, latency, queue_wait}
use distributed_task_queue_s.Config.Defaults.{float, is_empty}
use distributed_task_queue_s.Workload.{duration_seconds}
use distributed_task_queue_s.Bench.{
  deadline_miss_count, deadline_miss_rate, tenant_service, tenant_counts, ordered_values,
  jain_fairness, service_millis,
}
use distributed_task_queue_s.Bench.Tenants.{
  Sorting, LatencyStats, TenantStat, TenantSpread, summarise_seconds, seconds_of, tenant_stats,
  spread,
}

unfoldable pub earliest : Time → List Result → Time
earliest first [] = first
earliest first (r ∷ rs) = earliest (if after first r.submitted_at then r.submitted_at else first) rs

unfoldable pub latest : Time → List Result → Time
latest last [] = last
latest last (r ∷ rs) = latest (if after r.finished_at last then r.finished_at else last) rs

unfoldable pub makespan : List Result → ℤ
unfolding earliest latest sub
makespan [] = pos 0
makespan (r ∷ rs) =
    let d = sub (latest r.finished_at rs) (earliest r.submitted_at rs) in
    if ltb_ℤ d (pos 0) then pos 0 else d

unfoldable pub exec_duration : Result → ℤ
unfolding service_millis
exec_duration r = service_millis r *ℤ pos 1000000

module _ ⦃fl : Float64⦄ where
  pub record RunIdentity : Type 0 where
    pub run_id : Text
    pub scheduler : Text
    pub workload : Text
    pub repetition : ℤ
    pub seed : ℤ
    pub offered_load : fl.F

  pub record SummaryInput : Type 0 where
    pub identity : RunIdentity
    pub tenants : List Text
    pub results : List Result
    pub tasks_planned : ℕ
    pub tasks_submitted : ℕ
    pub tasks_dead_lettered : ℕ
    pub tasks_retried : ℕ
    pub task_failures : ℕ
    pub duplicate_completions : ℕ
    pub timed_out : Bool
    pub worker_processes : ℕ
    pub worker_concurrency : ℕ
    pub max_in_flight : ℕ
    pub experiment_duration : ℤ
    pub worker_busy_seconds : fl.F
    pub worker_slot_seconds : fl.F
    pub producer_max_lag : ℤ
    pub producer_mean_lag : ℤ
    pub arrival_rate_per_sec : fl.F
    pub exec_min_millis : ℤ
    pub exec_max_millis : ℤ
    pub offered_load : fl.F
    pub capacity : fl.F
    pub mean_exec_millis : fl.F

  -- What is copied from the input stays there; the rest is computed.
  pub record Summary : Type 0 where
    pub input : SummaryInput
    pub tasks_completed : ℕ
    pub total_slots : ℕ
    pub makespan : ℤ
    pub throughput : fl.F
    pub latency : LatencyStats
    pub wait : LatencyStats
    pub exec : LatencyStats
    pub deadline_missed : ℕ
    pub deadline_miss_rate : fl.F
    pub worker_utilization : fl.F
    pub jain_fairness_service : Option fl.F
    pub jain_fairness_count : Option fl.F
    pub tenant_count : ℕ
    pub tenant_service : List (Text × fl.F)
    pub tenant_completed : List (Text × ℕ)
    pub tenants : List TenantStat
    pub spread : TenantSpread

  unfoldable pub counts_of : List (Text × ℕ) → List Text → List fl.F
  counts_of completed [] = []
  counts_of completed (t ∷ ts) = float (get_or (lookup t completed) 0) ∷ counts_of completed ts

  unfoldable pub throughput_of : List Result → ℤ → fl.F
  unfolding makespan duration_seconds
  throughput_of results experiment =
      let completed = float (length results) in
      let seconds = duration_seconds (makespan results) in
      if fl.ltf (float 0) seconds
      then fl.divf completed seconds
      else if not (is_empty results) && ltb_ℤ (pos 0) experiment
      then fl.divf completed (duration_seconds experiment)
      else float 0

  unfoldable pub summarise : Sorting → SummaryInput → Summary
  unfolding makespan throughput_of counts_of exec_duration
  summarise sorting i =
      let service = tenant_service i.results i.tenants in
      let completed = tenant_counts i.results i.tenants in
      let tenants = tenant_stats sorting i.results i.tenants in
      record {
        input = i;
        tasks_completed = length i.results;
        total_slots = i.worker_processes * i.worker_concurrency;
        makespan = makespan i.results;
        throughput = throughput_of i.results i.experiment_duration;
        latency = summarise_seconds sorting (seconds_of sorting i.results latency);
        wait = summarise_seconds sorting (seconds_of sorting i.results queue_wait);
        exec = summarise_seconds sorting (seconds_of sorting i.results exec_duration);
        deadline_missed = deadline_miss_count i.results;
        deadline_miss_rate = deadline_miss_rate i.results;
        worker_utilization =
            if fl.ltf (float 0) i.worker_slot_seconds
            then fl.divf i.worker_busy_seconds i.worker_slot_seconds
            else float 0;
        jain_fairness_service = jain_fairness (ordered_values service i.tenants);
        jain_fairness_count = jain_fairness (counts_of completed i.tenants);
        tenant_count = length i.tenants;
        tenant_service = service;
        tenant_completed = completed;
        tenants = tenants;
        spread = spread tenants;
      }

picked_early :
    (first t : Time)
    → ((if after first t then t else first) ≤ℤ first) × ((if after first t then t else first) ≤ℤ t)
unfolding after
picked_early first t = elim (Bool-cases (after first t)) [
  | inl e ↦ rw e (ground (arith, e))
  | inr e ↦ rw e (ground (arith, e))
]

picked_late :
    (last t : Time)
    → (last ≤ℤ (if after t last then t else last)) × (t ≤ℤ (if after t last then t else last))
unfolding after
picked_late last t = elim (Bool-cases (after t last)) [
  | inl e ↦ rw e (ground (arith, e))
  | inr e ↦ rw e (ground (arith, e))
]

earliest_bounds :
    (first : Time) (rs : List Result)
    → (earliest first rs ≤ℤ first) × All (λ r. earliest first rs ≤ℤ r.submitted_at) rs
unfolding earliest
earliest_bounds first [] = (omega arith, tt)
earliest_bounds first (r ∷ rs) =
    let (p, q) = picked_early first r.submitted_at in
    let (b, bs) =
      earliest_bounds (if after first r.submitted_at then r.submitted_at else first) rs in
    (omega (arith, b, p), (omega (arith, b, q), bs))

latest_bounds :
    (last : Time) (rs : List Result)
    → (last ≤ℤ latest last rs) × All (λ r. r.finished_at ≤ℤ latest last rs) rs
unfolding latest
latest_bounds last [] = (omega arith, tt)
latest_bounds last (r ∷ rs) =
    let (p, q) = picked_late last r.finished_at in
    let (b, bs) = latest_bounds (if after r.finished_at last then r.finished_at else last) rs in
    (omega (arith, b, p), (omega (arith, b, q), bs))

abbrev saturated : ℤ → ℤ
saturated d =
    if ltb_ℤ max_duration d then max_duration else if ltb_ℤ d min_duration then min_duration else d

saturated_mono : (d e : ℤ) → d ≤ℤ e → saturated d ≤ℤ saturated e
saturated_mono d e h = ground (arith, h)

sub_mono : (a b c d : Time) → a ≤ℤ c → d ≤ℤ b → sub a b ≤ℤ sub c d
unfolding sub
sub_mono a b c d p q =
    saturated_mono (a -ℤ b) (c -ℤ d) (omega (arith, p, q, -ℤ_parts a b, -ℤ_parts c d))

-- The span covers every task from its submission to its completion: no latency is longer.
pub latency-makespan : (rs : List Result) → All (λ r. latency r ≤ℤ makespan rs) rs
unfolding latency makespan
latency-makespan [] = tt
latency-makespan (r ∷ rs) =
    let (f, fs) = earliest_bounds r.submitted_at rs in
    let (l, ls) = latest_bounds r.finished_at rs in
    (
      floored (sub (latest r.finished_at rs) (earliest r.submitted_at rs))
          (sub r.finished_at r.submitted_at)
          (sub_mono r.finished_at r.submitted_at (latest r.finished_at rs)
            (earliest r.submitted_at rs) l f),
      both rs fs ls,
    )
  where
    floored : (d e : ℤ) → e ≤ℤ d → e ≤ℤ (if ltb_ℤ d (pos 0) then pos 0 else d)
    floored d e h = ground (arith, h)

    both :
        (qs : List Result)
        → All (λ q. earliest r.submitted_at rs ≤ℤ q.submitted_at) qs
        → All (λ q. q.finished_at ≤ℤ latest r.finished_at rs) qs
        → All (λ q. latency q ≤ℤ makespan (r ∷ rs)) qs
    both [] fs ls = tt
    both (q ∷ qs) fs ls = (
      floored (sub (latest r.finished_at rs) (earliest r.submitted_at rs))
          (sub q.finished_at q.submitted_at)
          (sub_mono q.finished_at q.submitted_at (latest r.finished_at rs)
            (earliest r.submitted_at rs) ls.0 fs.0),
      both qs fs.1 ls.1,
    )
