-- ===== src/Workload.antt =====
-- internal/workload/workload.go: the finite plan of tasks that a workload's seed determines.
pub mod Generate
pub mod Cdf
pub mod Usable
pub mod Load
use distributed_task_queue_s.Prelude.{
  ℕ, zero, suc, ◌%◌, Bool, true, false, ◌&&◌, ◌||◌, not, Option, none, some, List, [], ◌∷◌, ◌++◌,
  length, Text, text_eq, codes, ℤ, pos, negsuc, pos_part, sub_ℕ, ◌+ℤ◌, ◌-ℤ◌, ◌*ℤ◌, ltb_ℤ, leb_ℤ,
  if◌then◌else◌,
}
use distributed_task_queue_s.Env.Float.{Float64}
use distributed_task_queue_s.Domain.Time.{Time}
use distributed_task_queue_s.Domain.Task.{Task}
use distributed_task_queue_s.Policy.Key.{zero_padded}
use distributed_task_queue_s.Lease.Options.{part}
use distributed_task_queue_s.Config.{TenantShare, BurstSpec, HeavyTailSpec, Workload}
use distributed_task_queue_s.Config.Defaults.{is_empty, float}
use distributed_task_queue_s.Config.Shares.{
  valid_workload, workload_uniform, workload_bursty, workload_heavy_tailed, active_tenants,
  not_positive,
}

pub record Spec : Type 0 where
  pub id : Text
  pub tenant_id : Text
  pub offset : ℤ
  pub exec_millis : ℤ
  pub priority : ℤ
  pub deadline_slack_millis : ℤ
  pub max_retries : ℤ

unfoldable pub task_at : Spec → Time → Task
task_at s submitted = record {
  id = s.id;
  tenant_id = s.tenant_id;
  submitted_at = submitted;
  exec_millis = s.exec_millis;
  priority = s.priority;
  deadline = submitted +ℤ s.deadline_slack_millis *ℤ pos 1000000;
  retry_count = pos 0;
  max_retries = s.max_retries;
  attempt_id = s.id ++ codes "#0";
}

-- `a % b`, with the sign of a.
unfoldable pub rem : ℤ → ℤ → ℤ
rem (pos a) (pos b) = pos (a % b)
rem (pos a) (negsuc b) = pos (a % suc b)
rem (negsuc a) (pos b) = pos 0 -ℤ pos (suc a % b)
rem (negsuc a) (negsuc b) = pos 0 -ℤ pos (suc a % suc b)

unfoldable pub arrival_is_stochastic : Text → Bool
arrival_is_stochastic kind = not (text_eq kind workload_uniform)

-- The entry at an index; `none` is a panic.
unfoldable pub at {ℓ} : {A : Type ℓ} → List A → ℕ → Option A
at [] i = none
at (x ∷ xs) zero = some x
at (x ∷ xs) (suc i) = at xs i

unfoldable pub index {ℓ} : {A : Type ℓ} → List A → ℤ → Option A
unfolding at
index xs (pos i) = at xs i
index xs (negsuc i) = none

module _ ⦃fl : Float64⦄ where
  -- `d.Seconds()`.
  unfoldable pub duration_seconds : ℤ → fl.F
  unfolding part rem
  duration_seconds d =
      fl.addf (fl.of_int (part d 1000000000))
        (fl.divf (fl.of_int (rem d (pos 1000000000))) (float 1000000000))

  unfoldable pub in_burst : ℤ → BurstSpec → Bool
  unfolding rem
  in_burst elapsed b =
      if leb_ℤ b.burst_period (pos 0)
      then false
      else ltb_ℤ (rem elapsed b.burst_period) b.burst_duration

  unfoldable pub shares_of : List TenantShare → List fl.F
  shares_of [] = []
  shares_of (t ∷ ts) = t.share ∷ shares_of ts

  -- The two loops of buildCDF, and the last entry set to one.
  unfoldable pub total_of : fl.F → List fl.F → fl.F
  total_of total [] = total
  total_of total (w ∷ ws) = total_of (fl.addf total w) ws

  unfoldable pub accumulate : fl.F → fl.F → List fl.F → List fl.F
  accumulate total acc [] = []
  accumulate total acc (w ∷ ws) =
      let next = fl.addf acc w in fl.divf next total ∷ accumulate total next ws

  unfoldable pub set_last : fl.F → List fl.F → List fl.F
  set_last x [] = []
  set_last x (c ∷ []) = x ∷ []
  set_last x (c ∷ d ∷ cs) = c ∷ set_last x (d ∷ cs)

  unfoldable pub build_cdf : List fl.F → List fl.F
  unfolding total_of accumulate set_last
  build_cdf weights = set_last (float 1) (accumulate (total_of (float 0) weights) (float 0) weights)

  -- The loop of pick at index i.
  unfoldable pub pick_from : ℕ → ℤ → fl.F → List fl.F → ℤ
  pick_from i last u [] = last
  pick_from i last u (c ∷ cs) =
      let rest = pick_from (suc i) last u cs in if fl.ltf u c then pos i else rest

  unfoldable pub pick : fl.F → List fl.F → ℤ
  unfolding pick_from
  pick u cdf = pick_from 0 (sub_ℕ (length cdf) 1) u cdf

  pub data Error : Type 0 where
    unknown_type count_not_positive no_tenants no_weights : Error

  -- validate; `none` is a nil error.
  unfoldable pub validate : Workload → Option Error
  unfolding valid_workload active_tenants
  validate cfg =
      if not (valid_workload cfg.type)
      then some unknown_type
      else if leb_ℤ cfg.count (pos 0)
      then some count_not_positive
      else if is_empty (active_tenants cfg)
      then some no_tenants
      else if is_empty cfg.priority.weights
      then some no_weights
      else none

  pub data Result : Type 0 where
    ok : List Spec → Result
    err : Error → Result
    panic : Result
