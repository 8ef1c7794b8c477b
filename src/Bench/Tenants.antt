-- ===== src/Bench/Tenants.antt =====
-- The distribution summaries of internal/bench/stats.go and the per-tenant view of tenant.go. Sorting
-- (sort.Float64s, sort.Strings) and rounding to an integer (math.Floor, math.Ceil) come from outside.
use distributed_task_queue_s.Prelude.{
  ℕ, ◌==◌, Bool, true, false, not, ◌&&◌, Option, none, some, List, [], ◌∷◌, ◌++◌, map, length, Text,
  ℤ, leb_ℤ, lookup, insert, get_or, if◌then◌else◌,
}
use distributed_task_queue_s.Env.Float.{Float64}
use distributed_task_queue_s.Domain.Result.{Result, latency, queue_wait}
use distributed_task_queue_s.Config.Defaults.{float, hundredths}
use distributed_task_queue_s.Config.Shares.{not_positive}
use distributed_task_queue_s.Workload.{index, duration_seconds}
use distributed_task_queue_s.Bench.{
  deadline_miss_count, deadline_miss_rate, min_of, max_of, sum_of, service_seconds,
}

module _ ⦃fl : Float64⦄ where
  pub record Sorting : Type 0 where
    pub sort_floats : List fl.F → List fl.F
    pub sort_strings : List Text → List Text
    pub floor : fl.F → ℤ
    pub ceil : fl.F → ℤ

  pub record LatencyStats : Type 0 where
    pub count : ℕ
    pub mean : fl.F
    pub p50 : Option fl.F
    pub p95 : Option fl.F
    pub p99 : Option fl.F
    pub max : fl.F

  pub record TenantStat : Type 0 where
    pub tenant : Text
    pub completed : ℕ
    pub service_seconds : fl.F
    pub service_share : fl.F
    pub latency : LatencyStats
    pub wait : LatencyStats
    pub deadline_missed : ℕ
    pub deadline_miss_rate : fl.F

  pub record TenantSpread : Type 0 where
    pub max_p99 : Option fl.F
    pub min_p99 : Option fl.F
    pub ratio : fl.F
    pub min_service_share : Option fl.F
    pub max_wait_any_tenant : fl.F

  abbrev pub last_of : fl.F → List fl.F → fl.F
  last_of x [] = x
  last_of x (y ∷ ys) = last_of y ys

  module _ (sorting : Sorting) where
    abbrev pub entry : List fl.F → ℤ → fl.F
    entry xs i = get_or (index xs i) (float 0)

    -- Percentile of what is not empty; `none` is a NaN.
    unfoldable pub percentile : List fl.F → fl.F → Option fl.F
    unfolding min_of max_of index
    percentile [] q = none
    percentile (x ∷ xs) q =
        if not_positive q
        then min_of (x ∷ xs)
        else if not (fl.ltf q (float 1))
        then max_of (x ∷ xs)
        else (let sorted = sorting.sort_floats (x ∷ xs) in
            let rank = fl.mulf q (float (length xs)) in
            let lo = sorting.floor rank in
            let hi = sorting.ceil rank in
            let frac = fl.subf rank (fl.of_int lo) in
            some (
              if leb_ℤ lo hi && leb_ℤ hi lo
              then entry sorted lo
              else fl.addf (fl.mulf (entry sorted lo) (fl.subf (float 1) frac))
                  (fl.mulf (entry sorted hi) frac)))

    unfoldable pub summarise_seconds : List fl.F → LatencyStats
    unfolding percentile sum_of
    summarise_seconds [] = record {
      count = 0;
      mean = float 0;
      p50 = some (float 0);
      p95 = some (float 0);
      p99 = some (float 0);
      max = float 0;
    }
    summarise_seconds (x ∷ xs) =
        let cp = sorting.sort_floats (x ∷ xs) in
        record {
          count = length cp;
          mean = fl.divf (sum_of (float 0) (x ∷ xs)) (float (length cp));
          p50 = percentile cp (hundredths 50);
          p95 = percentile cp (hundredths 95);
          p99 = percentile cp (hundredths 99);
          max = last_of (float 0) cp;
        }

    unfoldable pub seconds_of : List Result → (Result → ℤ) → List fl.F
    unfolding duration_seconds
    seconds_of [] f = []
    seconds_of (r ∷ rs) f = duration_seconds (f r) ∷ seconds_of rs f

    -- The two loops that fill byTenant.
    unfoldable pub seed_tenants : List Text → List (Text × List Result) → List (Text × List Result)
    seed_tenants [] out = out
    seed_tenants (t ∷ ts) out = seed_tenants ts (insert t [] out)

    unfoldable pub group : List Result → List (Text × List Result) → List (Text × List Result)
    group [] out = out
    group (r ∷ rs) out =
        group rs (insert r.tenant_id (get_or (lookup r.tenant_id out) [] ++ r ∷ []) out)

    unfoldable pub service_sum : fl.F → List Result → fl.F
    unfolding service_seconds
    service_sum s [] = s
    service_sum s (r ∷ rs) = service_sum (fl.addf s (service_seconds r)) rs

    -- The service of the tenants in the order of their names, and the total.
    unfoldable pub total_service : List (Text × List Result) → fl.F → List Text → fl.F
    unfolding service_sum
    total_service by_tenant total [] = total
    total_service by_tenant total (t ∷ ts) =
        total_service by_tenant
          (fl.addf total (service_sum (float 0) (get_or (lookup t by_tenant) []))) ts

    unfoldable pub tenant_stat : fl.F → Text → List Result → TenantStat
    unfolding service_sum summarise_seconds seconds_of deadline_miss_count deadline_miss_rate
    tenant_stat total t rs = record {
      tenant = t;
      completed = length rs;
      service_seconds = service_sum (float 0) rs;
      service_share =
          if fl.ltf (float 0) total then fl.divf (service_sum (float 0) rs) total else float 0;
      latency = summarise_seconds (seconds_of rs latency);
      wait = summarise_seconds (seconds_of rs queue_wait);
      deadline_missed = deadline_miss_count rs;
      deadline_miss_rate = deadline_miss_rate rs;
    }

    unfoldable pub stats_of : List (Text × List Result) → fl.F → List Text → List TenantStat
    unfolding tenant_stat
    stats_of by_tenant total [] = []
    stats_of by_tenant total (t ∷ ts) =
        tenant_stat total t (get_or (lookup t by_tenant) []) ∷ stats_of by_tenant total ts

    unfoldable pub tenant_stats : List Result → List Text → List TenantStat
    unfolding stats_of total_service group seed_tenants
    tenant_stats results tenants =
        let by_tenant = group results (seed_tenants tenants []) in
        let names = sorting.sort_strings (map (λ e. e.0) by_tenant) in
        stats_of by_tenant (total_service by_tenant (float 0) names) names

  -- A comparison with a NaN is false.
  abbrev pub lesser : Option fl.F → Option fl.F → Option fl.F
  lesser (some x) (some m) = some (if fl.ltf x m then x else m)
  lesser x m = m

  abbrev pub greater : Option fl.F → Option fl.F → Option fl.F
  greater (some x) (some m) = some (if fl.ltf m x then x else m)
  greater x m = m

  abbrev pub least_share : fl.F → Option fl.F → Option fl.F
  least_share x none = some x
  least_share x (some m) = some (if fl.ltf x m then x else m)

  -- One round of Spread; `first` holds until a tenant with a completed task is met.
  unfoldable pub spread_step : TenantStat → TenantSpread → Bool → TenantSpread × Bool
  spread_step st s first =
      let s1 = record s {
        max_wait_any_tenant =
            if fl.ltf s.max_wait_any_tenant st.wait.max then st.wait.max else s.max_wait_any_tenant;
        min_service_share = least_share st.service_share s.min_service_share;
      } in
      if st.completed == 0
      then (s1, first)
      else if first
      then (record s1 { min_p99 = st.latency.p99; max_p99 = st.latency.p99 }, false)
      else (
        record s1 {
          min_p99 = lesser st.latency.p99 s1.min_p99;
          max_p99 = greater st.latency.p99 s1.max_p99;
        },
        false,
      )

  unfoldable pub spread_loop : List TenantStat → TenantSpread → Bool → TenantSpread × Bool
  unfolding spread_step
  spread_loop [] s first = (s, first)
  spread_loop (st ∷ sts) s first =
      let (s', first') = spread_step st s first in spread_loop sts s' first'

  -- The ratio stays zero unless the least p99 is positive.
  abbrev pub ratio_of : Option fl.F → Option fl.F → fl.F
  ratio_of (some hi) (some lo) = if fl.ltf (float 0) lo then fl.divf hi lo else float 0
  ratio_of hi lo = float 0

  unfoldable pub spread : List TenantStat → TenantSpread
  unfolding spread_loop
  spread stats =
      let (s, first) =
        spread_loop stats
          (record {
            max_p99 = none;
            min_p99 = none;
            ratio = float 0;
            min_service_share = none;
            max_wait_any_tenant = float 0;
          })
          true in
      if first then s else record s { ratio = ratio_of s.max_p99 s.min_p99 }
