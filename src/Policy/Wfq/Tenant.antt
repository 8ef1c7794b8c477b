-- ===== src/Policy/Wfq/Tenant.antt =====
-- Fairness between tenants in internal/scheduler/wfq: the order within a tenant, and no credit for
-- an idle one.
use distributed_task_queue_s.Prelude.{
  ◌≡◌, false, some, List, [], ◌∷◌, Text, text_eq, text_eq_iff, text_eq_refl, lookup, lookup-insert,
  Option-cases, Bool-cases, inl, inr, arith,
}
use distributed_task_queue_s.Env.Float.{Float64}
use distributed_task_queue_s.Domain.Task.{Task}
use distributed_task_queue_s.Policy.Key.{Key}
use distributed_task_queue_s.Policy.Wfq.{Wfq, start_tag, rank, notify}
use distributed_task_queue_s.Policy.Wfq.Clock.{
  IsValid, le_trans_f, rank-start_tag, rank-IsValid, notify-IsValid,
}

module _ ⦃fl : Float64⦄ where
  -- What happens to a policy between two admissions of a tenant.
  pub data Event : Type 0 where
    ranked : Task → Event
    dispatched : Key → Event

  unfoldable pub run : Wfq → List Event → Wfq
  run p [] = p
  run p (ranked t ∷ es) = run (rank p t).1 es
  run p (dispatched k ∷ es) = run (notify p k) es

  run-IsValid : (p : Wfq) (es : List Event) → IsValid p → IsValid (run p es)
  unfolding run
  run-IsValid p [] v = v
  run-IsValid p (ranked t ∷ es) v = run-IsValid (rank p t).1 es (rank-IsValid p t v)
  run-IsValid p (dispatched k ∷ es) v = run-IsValid (notify p k) es (notify-IsValid p k v)

  -- The tenant's last finish tag is set, and not below `f`.
  abbrev Reached : fl.F → Text → Wfq → Type 0
  Reached f tenant p = (g : fl.F) × (lookup tenant p.last_finish ≡ some g) × (fl.ltf g f ≡ false)

  start_tag-Reached :
      (p : Wfq) (f : fl.F) (tenant : Text)
      → Reached f tenant p
      → fl.ltf (start_tag p tenant) f ≡ false
  unfolding start_tag
  start_tag-Reached p f tenant (g, e, h) =
      rw (e, start_tag) (ground (arith, le_trans_f f g p.virtual_time, h))

  rank-Reached :
      (p : Wfq) (t : Task) (f : fl.F) (tenant : Text)
      → IsValid p
      → Reached f tenant p
      → Reached f tenant (rank p t).1
  unfolding rank
  rank-Reached p t f tenant v (g, e, h) = elim (Bool-cases (text_eq t.tenant_id tenant)) [
    | inl same ↦
        let own : t.tenant_id ≡ tenant = (text_eq_iff t.tenant_id tenant).0 same in
        (
          (rank p t).0.score,
          rw (lookup-insert t.tenant_id tenant (rank p t).0.score p.last_finish, same),
          le_trans_f f (start_tag p t.tenant_id) (rank p t).0.score
              (rw own (start_tag-Reached p f tenant (g, e, h))) (rank-start_tag p t v),
        )
    | inr other ↦
        (g, rw (lookup-insert t.tenant_id tenant (rank p t).0.score p.last_finish, other) e, h)
  ]

  notify-Reached :
      (p : Wfq) (k : Key) (f : fl.F) (tenant : Text)
      → Reached f tenant p
      → Reached f tenant (notify p k)
  unfolding notify
  notify-Reached p k f tenant (g, e, h) = (g, ground (arith, e), h)

  run-Reached :
      (p : Wfq) (es : List Event) (f : fl.F) (tenant : Text)
      → IsValid p
      → Reached f tenant p
      → Reached f tenant (run p es)
  unfolding run
  run-Reached p [] f tenant v r = r
  run-Reached p (ranked t ∷ es) f tenant v r =
      run-Reached (rank p t).1 es f tenant (rank-IsValid p t v) (rank-Reached p t f tenant v r)
  run-Reached p (dispatched k ∷ es) f tenant v r =
      run-Reached (notify p k) es f tenant (notify-IsValid p k v) (notify-Reached p k f tenant r)

  -- Within a tenant the finish tags never fall, if the policy was well formed: whatever is admitted
  -- and dispatched in between, a later task of the tenant gets a score that is not below the earlier
  -- one's.
  pub tenant_order :
      (p : Wfq) (t u : Task) (es : List Event)
      → IsValid p
      → u.tenant_id ≡ t.tenant_id
      → fl.ltf (rank (run (rank p t).1 es) u).0.score (rank p t).0.score ≡ false
  unfolding rank
  tenant_order p t u es v same =
      let v' = rank-IsValid p t v in
      let reached : Reached (rank p t).0.score t.tenant_id (rank p t).1 = (
        (rank p t).0.score,
        rw (
          lookup-insert t.tenant_id t.tenant_id (rank p t).0.score p.last_finish,
          text_eq_refl t.tenant_id,
        ),
        fl.ltf_irrefl (rank p t).0.score,
      ) in
      let q = run (rank p t).1 es in
      le_trans_f (rank p t).0.score (start_tag q u.tenant_id) (rank q u).0.score
        (rw same (start_tag-Reached q _ t.tenant_id (run-Reached _ es _ t.tenant_id v' reached)))
        (rank-start_tag q u (run-IsValid _ es v'))

  pub start_tag-clock :
      (p : Wfq) (tenant : Text) → fl.ltf (start_tag p tenant) p.virtual_time ≡ false
  unfolding start_tag
  start_tag-clock p tenant = elim (Option-cases (lookup tenant p.last_finish)) [
    | inl e ↦ rw (e, start_tag) (fl.ltf_irrefl p.virtual_time)
    | inr (f, e) ↦
        rw (e, start_tag)
          (ground
            (arith, fl.ltf_irrefl p.virtual_time, fl.ltf_trans p.virtual_time f p.virtual_time))
  ]

  -- No credit for idling: under a well formed policy the score of a task is not below the virtual
  -- clock at its admission.
  pub no_idle_credit :
      (p : Wfq) (t : Task) → IsValid p → fl.ltf (rank p t).0.score p.virtual_time ≡ false
  no_idle_credit p t v =
      le_trans_f p.virtual_time (start_tag p t.tenant_id) (rank p t).0.score
        (start_tag-clock p t.tenant_id) (rank-start_tag p t v)
