-- ===== src/Config/Drawable.antt =====
-- What an accepted workload promises to the generator.
use distributed_task_queue_s.Prelude.{
  ℕ, suc, ◌≤◌, ◌<◌, ◌≡◌, inl, inr, Bool, true, false, Bool-cases, not, List, [], ◌∷◌, ◌++◌, length,
  All, Text, text_eq, codes, pos, ltb_ℤ, leb_ℤ, ◌<ℤ◌, ◌≤ℤ◌, if◌then◌else◌, arith,
}
use distributed_task_queue_s.Env.Float.{Float64}
use distributed_task_queue_s.Config.{ExecSpec, PrioritySpec, HeavyTailSpec, TenantShare, Workload}
use distributed_task_queue_s.Config.Defaults.{float, is_blank, is_empty}
use distributed_task_queue_s.Config.Problem.{Problem, report, report_none, append_none}
use distributed_task_queue_s.Config.Shares.{
  check_exec, check_priority, check_deadline, check_tenants, check_heavy_tail, check_shares,
  validate_shares, validate_workload, valid_workload, workload_bursty, not_positive,
  workload_multi_tenant, workload_heavy_tailed, active_tenants,
}

module _ ⦃fl : Float64⦄ where
  abbrev pub HasId : TenantShare → Type 0
  HasId t = is_blank t.id ≡ false

  pub record IsDrawable (w : Workload) : Type 0 where
    pub kind : valid_workload w.type ≡ true
    pub count : leb_ℤ w.count (pos 0) ≡ false
    pub retries : ltb_ℤ w.max_retries (pos 0) ≡ false
    pub exec : check_exec w.exec ≡ []
    pub priority : check_priority w.priority ≡ []
    pub tenants : check_tenants w ≡ []
    pub heavy_tail :
        text_eq w.type workload_heavy_tailed ≡ true → check_heavy_tail w.heavy_tail ≡ []

  of_branch : (b : Bool) (ps : List Problem) → b ≡ true → (if b then ps else []) ≡ [] → ps ≡ []
  of_branch b ps e h = ground (arith, e)

  scalars :
      (w : Workload)
      → report (not (valid_workload w.type)) Problem.workload_type_unknown
          ++ report (leb_ℤ w.count (pos 0)) Problem.count_not_positive
          ++ report (is_blank w.id_prefix) Problem.id_prefix_required
          ++ report (ltb_ℤ w.max_retries (pos 0)) Problem.max_retries_negative
          ++ report (not_positive w.arrival_rate_per_sec) Problem.arrival_rate_not_positive
        ≡ []
      → (valid_workload w.type ≡ true)
        × (leb_ℤ w.count (pos 0) ≡ false)
        × (ltb_ℤ w.max_retries (pos 0) ≡ false)
  unfolding report
  scalars w h = ground arith

  pub validate_workload-IsDrawable : (w : Workload) → validate_workload w ≡ [] → IsDrawable w
  unfolding validate_workload
  validate_workload-IsDrawable w h =
      let (h1, tail) = append_none _ (if text_eq w.type workload_heavy_tailed then _ else []) h in
      let (h2, burst) = append_none _ (if text_eq w.type workload_bursty then _ else []) h1 in
      let (h3, tenants) = append_none _ (check_tenants w) h2 in
      let (h4, deadline) = append_none _ (check_deadline w.deadline) h3 in
      let (h5, priority) = append_none _ (check_priority w.priority) h4 in
      let (h6, exec) = append_none _ (check_exec w.exec) h5 in
      let (kind, count, retries) = scalars w h6 in
      record {
        kind = kind;
        count = count;
        retries = retries;
        exec = exec;
        priority = priority;
        tenants = tenants;
        heavy_tail = λ e. of_branch _ _ e tail;
      }

  pub check_exec-range :
      (e : ExecSpec) → check_exec e ≡ [] → (pos 0 ≤ℤ e.min_millis) × (e.min_millis ≤ℤ e.max_millis)
  unfolding check_exec report
  check_exec-range e h = ground arith

  pub check_heavy_tail-range :
      (t : HeavyTailSpec)
      → check_heavy_tail t ≡ []
      → (pos 0 <ℤ t.min_millis) × (t.min_millis ≤ℤ t.max_millis)
  unfolding check_heavy_tail report
  check_heavy_tail-range t h = ground arith

  weights_count :
      (ws : List fl.F)
      → check_priority (record { weights = ws }) ≡ []
      → (0 < length ws) × (length ws ≤ 256)
  unfolding check_priority report
  weights_count [] h = ground arith
  weights_count (w ∷ ws) h = ground arith

  pub check_priority-count :
      (p : PrioritySpec) → check_priority p ≡ [] → (0 < length p.weights) × (length p.weights ≤ 256)
  check_priority-count p h = weights_count p.weights h

  check_shares-HasId :
      (field : Text) (i : ℕ) (seen : List Text) (sum : fl.F) (ts : List TenantShare)
      → check_shares field i seen sum ts ≡ []
      → All HasId ts
  unfolding check_shares report
  check_shares-HasId field i seen sum [] h = tt
  check_shares-HasId field i seen sum (t ∷ ts) h = (
    ground arith,
    check_shares-HasId field (suc i) (t.id ∷ seen) (fl.addf sum t.share) ts (ground arith),
  )

  validate_shares-HasId :
      (field : Text) (ts : List TenantShare) → validate_shares field ts ≡ [] → All HasId ts
  unfolding validate_shares
  validate_shares-HasId field [] h = tt
  validate_shares-HasId field (t ∷ ts) h = check_shares-HasId field 0 [] (float 0) (t ∷ ts) h

  nonempty : (ts : List TenantShare) → is_empty ts ≡ false → 0 < length ts
  nonempty [] h = cc
  nonempty (t ∷ ts) h = omega arith

  -- Whichever distribution applies, it has tenants, and each has an id.
  pub active_tenants-HasId :
      (w : Workload)
      → check_tenants w ≡ []
      → (0 < length (active_tenants w)) × All HasId (active_tenants w)
  unfolding check_tenants active_tenants
  active_tenants-HasId w h =
      let (h1, skewed) = append_none _ (if text_eq w.type workload_multi_tenant then _ else []) h in
      let (some_tenant, shares) =
        append_none (report (is_empty w.tenants) Problem.tenants_required) _ h1 in
      elim (Bool-cases (text_eq w.type workload_multi_tenant)) [
        | inr plain ↦ rw plain (
          nonempty w.tenants (report_none _ _ some_tenant),
          validate_shares-HasId (codes "workload.tenants") w.tenants shares,
        )
        | inl multi ↦
            (let (some_skewed, skew) =
                append_none (report (is_empty w.skew_tenants) Problem.skew_tenants_required) _
                  (of_branch _ _ multi skewed) in
              let full = report_none _ _ some_skewed in
              rw (multi, full)
                (
                  nonempty w.skew_tenants full,
                  validate_shares-HasId (codes "workload.skew_tenants") w.skew_tenants skew,
                ))
      ]
