-- ===== src/Bench.antt =====
-- internal/bench: the statistics that are computed from task results. A NaN is `none`.
pub mod Counts
pub mod Tenants
pub mod Failover
pub mod Summary
pub mod Runner
pub mod Epochs
use distributed_task_queue_s.Prelude.{
  ℕ, zero, suc, ◌+◌, ◌==◌, Bool, true, false, not, ◌||◌, Option, none, some, List, [], ◌∷◌, length,
  Text, ℤ, pos, pos_part, leb_ℤ, lookup, insert, get_or, if◌then◌else◌,
}
use distributed_task_queue_s.Env.Float.{Float64}
use distributed_task_queue_s.Domain.Result.{Result, missed_deadline}
use distributed_task_queue_s.Config.Defaults.{float, is_null_float}
use distributed_task_queue_s.Config.Shares.{not_positive}
use distributed_task_queue_s.Workload.{at}

unfoldable pub deadline_miss_count : List Result → ℕ
deadline_miss_count [] = 0
deadline_miss_count (r ∷ rs) =
    let rest = deadline_miss_count rs in if missed_deadline r then suc rest else rest

-- `out[t] = 0` for each tenant, and `out[r.TenantID]++` for each result.
unfoldable pub seed_counts : List Text → List (Text × ℕ) → List (Text × ℕ)
seed_counts [] out = out
seed_counts (t ∷ ts) out = seed_counts ts (insert t 0 out)

unfoldable pub count_results : List Result → List (Text × ℕ) → List (Text × ℕ)
count_results [] out = out
count_results (r ∷ rs) out =
    count_results rs (insert r.tenant_id (suc (get_or (lookup r.tenant_id out) 0)) out)

unfoldable pub tenant_counts : List Result → List Text → List (Text × ℕ)
unfolding seed_counts count_results
tenant_counts results tenants = count_results results (seed_counts tenants [])

-- The milliseconds that a result is charged with.
unfoldable pub service_millis : Result → ℤ
service_millis r =
    if leb_ℤ r.actual_exec_millis (pos 0) then r.exec_millis else r.actual_exec_millis

module _ ⦃fl : Float64⦄ where
  unfoldable pub deadline_miss_rate : List Result → fl.F
  unfolding deadline_miss_count
  deadline_miss_rate [] = float 0
  deadline_miss_rate (r ∷ rs) =
      fl.divf (float (deadline_miss_count (r ∷ rs))) (float (length (r ∷ rs)))

  unfoldable pub least_from : fl.F → List fl.F → fl.F
  least_from m [] = m
  least_from m (v ∷ vs) = least_from (if fl.ltf v m then v else m) vs

  unfoldable pub greatest_from : fl.F → List fl.F → fl.F
  greatest_from m [] = m
  greatest_from m (v ∷ vs) = greatest_from (if fl.ltf m v then v else m) vs

  -- minOf and maxOf; `none` is a panic.
  unfoldable pub min_of : List fl.F → Option fl.F
  unfolding least_from
  min_of [] = none
  min_of (x ∷ xs) = some (least_from x xs)

  unfoldable pub max_of : List fl.F → Option fl.F
  unfolding greatest_from
  max_of [] = none
  max_of (x ∷ xs) = some (greatest_from x xs)

  unfoldable pub floor_zero : fl.F → fl.F
  floor_zero v = if fl.ltf v (float 0) then float 0 else v

  unfoldable pub sum_of : fl.F → List fl.F → fl.F
  sum_of sum [] = sum
  sum_of sum (v ∷ vs) = sum_of (fl.addf sum v) vs

  -- The two sums of JainFairness.
  unfoldable pub jain_sums : fl.F → fl.F → List fl.F → fl.F × fl.F
  unfolding floor_zero
  jain_sums sum sum_sq [] = (sum, sum_sq)
  jain_sums sum sum_sq (v ∷ vs) =
      let x = floor_zero v in jain_sums (fl.addf sum x) (fl.addf sum_sq (fl.mulf x x)) vs

  unfoldable pub jain_fairness : List fl.F → Option fl.F
  unfolding jain_sums
  jain_fairness [] = none
  jain_fairness (v ∷ vs) =
      let (sum, sum_sq) = jain_sums (float 0) (float 0) (v ∷ vs) in
      some (
        if is_null_float sum_sq
        then float 1
        else fl.divf (fl.mulf sum sum) (fl.mulf (float (length (v ∷ vs))) sum_sq))

  unfoldable pub service_seconds : Result → fl.F
  unfolding service_millis
  service_seconds r = fl.divf (fl.of_int (service_millis r)) (float 1000)

  unfoldable pub seed_service : List Text → List (Text × fl.F) → List (Text × fl.F)
  seed_service [] out = out
  seed_service (t ∷ ts) out = seed_service ts (insert t (float 0) out)

  unfoldable pub add_service : List Result → List (Text × fl.F) → List (Text × fl.F)
  unfolding service_seconds
  add_service [] out = out
  add_service (r ∷ rs) out = add_service rs (
      insert r.tenant_id (fl.addf (get_or (lookup r.tenant_id out) (float 0)) (service_seconds r))
        out)

  unfoldable pub tenant_service : List Result → List Text → List (Text × fl.F)
  unfolding seed_service add_service
  tenant_service results tenants = add_service results (seed_service tenants [])

  unfoldable pub ordered_values : List (Text × fl.F) → List Text → List fl.F
  ordered_values m [] = []
  ordered_values m (k ∷ ks) = get_or (lookup k m) (float 0) ∷ ordered_values m ks
