-- ===== src/Config/Shares.antt =====
-- internal/config/workload.go: validateShares, and validate of a Workload.
use distributed_task_queue_s.Prelude.{
  ℕ, suc, ltb, Bool, true, false, ◌&&◌, ◌||◌, not, List, [], ◌∷◌, ◌++◌, length, Text, text_eq,
  codes, pos, pos_part, ltb_ℤ, leb_ℤ, if◌then◌else◌,
}
use distributed_task_queue_s.Env.Float.{Float64}
use distributed_task_queue_s.Domain.Task.{max_priority}
use distributed_task_queue_s.Policy.Choose.{listed}
use distributed_task_queue_s.Config.{
  ExecSpec, PrioritySpec, DeadlineSpec, TenantShare, BurstSpec, HeavyTailSpec, Workload,
}
use distributed_task_queue_s.Config.Defaults.{is_blank, is_null, is_empty, float}
use distributed_task_queue_s.Config.Problem.{Problem, report}

abbrev pub workload_uniform : Text
workload_uniform = codes "uniform"

abbrev pub workload_bursty : Text
workload_bursty = codes "bursty"

abbrev pub workload_heavy_tailed : Text
workload_heavy_tailed = codes "heavy_tailed"

abbrev pub workload_multi_tenant : Text
workload_multi_tenant = codes "multi_tenant"

abbrev pub workload_types : List Text
workload_types =
    workload_uniform ∷ workload_bursty ∷ workload_heavy_tailed ∷ workload_multi_tenant ∷ []

unfoldable pub valid_workload : Text → Bool
unfolding listed
valid_workload name = listed name workload_types

-- `seen[id]`.
unfoldable pub seen_before : Text → List Text → Bool
seen_before id [] = false
seen_before id (j ∷ ids) = if text_eq j id then true else seen_before id ids

unfoldable pub check_exec : ExecSpec → List Problem
unfolding report
check_exec e =
    report (ltb_ℤ e.min_millis (pos 0) || ltb_ℤ e.max_millis e.min_millis) Problem.exec_range
    ++ report (is_null e.max_millis) Problem.exec_max_zero

module _ ⦃fl : Float64⦄ where
  abbrev pub not_positive : fl.F → Bool
  not_positive x = not (fl.ltf (float 0) x)

  -- math.Abs.
  abbrev pub abs : fl.F → fl.F
  abs x = if fl.ltf x (float 0) then fl.subf (float 0) x else x

  -- The loop of validateShares at index i, after the ids seen and with the sum so far.
  unfoldable pub check_shares : Text → ℕ → List Text → fl.F → List TenantShare → List Problem
  unfolding report seen_before
  check_shares field i seen sum [] =
      report (fl.ltf (fl.divf (float 1) (float 1000000)) (abs (fl.subf sum (float 1))))
        (Problem.shares_sum field)
  check_shares field i seen sum (t ∷ ts) =
      report (is_blank t.id) (Problem.share_id_required field i)
      ++ report (seen_before t.id seen) (Problem.share_id_duplicate field t.id)
      ++ report (not_positive t.share) (Problem.share_not_positive field i)
      ++ check_shares field (suc i) (t.id ∷ seen) (fl.addf sum t.share) ts

  unfoldable pub validate_shares : Text → List TenantShare → List Problem
  unfolding check_shares
  validate_shares field [] = []
  validate_shares field (t ∷ ts) = check_shares field 0 [] (float 0) (t ∷ ts)

  -- The loop over the priority weights at index i, with the sum so far.
  unfoldable pub check_weights : ℕ → fl.F → List fl.F → List Problem
  unfolding report
  check_weights i sum [] = report (not_positive sum) Problem.weights_sum_not_positive
  check_weights i sum (v ∷ vs) =
      report (fl.ltf v (float 0)) (Problem.weight_negative i)
      ++ check_weights (suc i) (fl.addf sum v) vs

  unfoldable pub check_priority : PrioritySpec → List Problem
  unfolding report
  check_priority p =
      report (is_empty p.weights) Problem.weights_required
      ++ report (ltb (suc (pos_part max_priority)) (length p.weights)) Problem.weights_too_many
      ++ check_weights 0 (float 0) p.weights

  unfoldable pub check_deadline : DeadlineSpec → List Problem
  unfolding report
  check_deadline d =
      report (ltb_ℤ d.base_millis (pos 0)) Problem.base_millis_negative
      ++ report (fl.ltf d.exec_multiplier (float 0)) Problem.exec_multiplier_negative
      ++ report (ltb_ℤ d.jitter_millis (pos 0)) Problem.jitter_millis_negative

  unfoldable pub check_burst : BurstSpec → List Problem
  unfolding report
  check_burst b =
      report (not_positive b.base_rate_per_sec) Problem.base_rate_not_positive
      ++ report (not_positive b.burst_rate_per_sec) Problem.burst_rate_not_positive
      ++ report (leb_ℤ b.burst_duration (pos 0)) Problem.burst_duration_not_positive
      ++ report (leb_ℤ b.burst_period b.burst_duration) Problem.burst_period_too_short

  unfoldable pub check_heavy_tail : HeavyTailSpec → List Problem
  unfolding report
  check_heavy_tail h =
      report (leb_ℤ h.min_millis (pos 0)) Problem.tail_min_not_positive
      ++ report (ltb_ℤ h.max_millis h.min_millis) Problem.tail_max_too_small
      ++ report (not_positive h.alpha) Problem.alpha_not_positive

  unfoldable pub check_tenants : Workload → List Problem
  unfolding report
  check_tenants w =
      report (is_empty w.tenants) Problem.tenants_required
      ++ validate_shares (codes "workload.tenants") w.tenants
      ++ (if text_eq w.type workload_multi_tenant
          then report (is_empty w.skew_tenants) Problem.skew_tenants_required
            ++ validate_shares (codes "workload.skew_tenants") w.skew_tenants
          else [])

  unfoldable pub validate_workload : Workload → List Problem
  unfolding report
  validate_workload w =
      report (not (valid_workload w.type)) Problem.workload_type_unknown
      ++ report (leb_ℤ w.count (pos 0)) Problem.count_not_positive
      ++ report (is_blank w.id_prefix) Problem.id_prefix_required
      ++ report (ltb_ℤ w.max_retries (pos 0)) Problem.max_retries_negative
      ++ report (not_positive w.arrival_rate_per_sec) Problem.arrival_rate_not_positive
      ++ check_exec w.exec
      ++ check_priority w.priority
      ++ check_deadline w.deadline
      ++ check_tenants w
      ++ (if text_eq w.type workload_bursty then check_burst w.burst else [])
      ++ (if text_eq w.type workload_heavy_tailed then check_heavy_tail w.heavy_tail else [])

  -- The tenant distribution that applies to this workload type.
  unfoldable pub active_tenants : Workload → List TenantShare
  active_tenants w =
      if text_eq w.type workload_multi_tenant && not (is_empty w.skew_tenants)
      then w.skew_tenants
      else w.tenants

  unfoldable pub share_ids : List TenantShare → List Text
  share_ids [] = []
  share_ids (t ∷ ts) = t.id ∷ share_ids ts

  unfoldable pub tenant_ids : Workload → List Text
  unfolding active_tenants share_ids
  tenant_ids w = share_ids (active_tenants w)
