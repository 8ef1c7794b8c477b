-- ===== src/Policy/Wfq/Fair.antt =====
-- What internal/scheduler/wfq shares out: its tags measure the service that a tenant has asked for,
-- divided by its weight.
use distributed_task_queue_s.Prelude.{
  Option, ℕ, ◌+◌, ◌≤◌, ◌≡◌, refl, sym, ap, ◌∙◌, inl, inr, true, false, Bool-cases, Option-cases,
  none, some, List, [], ◌∷◌, Text, text_eq, text_eq_iff, text_eq_refl, pos, pos-+, ◌<ℤ◌, ltb_ℤ,
  get_or, ltb, lookup, lookup-insert, if◌then◌else◌, arith,
}
use distributed_task_queue_s.Env.Float.{Float64, IsExact}
use distributed_task_queue_s.Domain.Task.{Task}
use distributed_task_queue_s.Policy.Key.{Key}
use distributed_task_queue_s.Policy.Wfq.{Wfq, weight, start_tag, cost, rank, notify}
use distributed_task_queue_s.Policy.Wfq.Clock.{
  IsValid, rank-IsValid, notify-IsValid, rank-start_tag, le_trans_f,
}
use distributed_task_queue_s.Policy.Wfq.Tenant.{Event, ranked, dispatched, run, start_tag-clock}

module _ ⦃fl : Float64⦄ (share : Task → ℕ) where
  -- What a tenant has asked for, in units of its weight.
  unfoldable pub work : Text → List Event → ℕ
  work tenant [] = 0
  work tenant (ranked t ∷ es) =
      let rest = work tenant es in if text_eq t.tenant_id tenant then share t + rest else rest
  work tenant (dispatched k ∷ es) = work tenant es

  -- The positive service time of a task, in milliseconds, divided by the weight configured for its
  -- tenant is the number `share`.
  unfoldable pub IsShare : Wfq → Task → Type 0
  IsShare p t =
      (pos 0 <ℤ t.exec_millis)
      × IsExact t.exec_millis
      × (fl.divf (fl.of_int t.exec_millis) (get_or (lookup t.tenant_id p.weights) p.default_weight)
          ≡ fl.of_int (pos (share t)))

  -- What the code charges for such a task is its service time.
  cost-IsShare :
      (p : Wfq) (t : Task)
      → IsShare p t
      → fl.divf (cost t) (weight p t.tenant_id) ≡ fl.of_int (pos (share t))
  unfolding IsShare cost weight
  cost-IsShare p t (positive, exact, e) =
      rw
        (cost, fl.ltf-of_int (pos 0) t.exec_millis (omega arith, omega arith) exact, below positive)
        e
    where
      below : pos 0 <ℤ t.exec_millis → ltb_ℤ (pos 0) t.exec_millis ≡ true
      below h = ground arith

  -- The tenant stays busy, with exact shares: no key is dispatched that is above its own last tag.
  unfoldable pub IsBusy : Text → Wfq → List Event → Type 0
  IsBusy tenant p [] = Unit
  IsBusy tenant p (ranked t ∷ es) = IsShare p t × IsBusy tenant (rank p t).1 es
  IsBusy tenant p (dispatched k ∷ es) =
      (fl.ltf (start_tag p tenant) k.score ≡ false) × IsBusy tenant (notify p k) es

  same_f : (x y : fl.F) → fl.ltf x y ≡ false → fl.ltf y x ≡ false → x ≡ y
  same_f x y p q = ground (arith, fl.ltf_total x y)

  -- The later of two tags.
  abbrev later : fl.F → fl.F → fl.F
  later v f = if fl.ltf v f then f else v

  start_tag-set :
      (p : Wfq) (tenant : Text) (f : fl.F)
      → lookup tenant p.last_finish ≡ some f
      → fl.ltf f p.virtual_time ≡ false
      → start_tag p tenant ≡ f
  unfolding start_tag
  start_tag-set p tenant f e h = rw (start_tag, e) (ground (arith, same_f p.virtual_time f, h))

  -- A task moves its own tenant's tag to its finish tag, and no other.
  start_tag-rank :
      (p : Wfq) (t : Task) → IsValid p → start_tag (rank p t).1 t.tenant_id ≡ (rank p t).0.score
  unfolding rank
  start_tag-rank p t v =
      start_tag-set (rank p t).1 t.tenant_id (rank p t).0.score
        (rw (
          lookup-insert t.tenant_id t.tenant_id (rank p t).0.score p.last_finish,
          text_eq_refl t.tenant_id,
        ))
        (le_trans_f p.virtual_time (start_tag p t.tenant_id) (rank p t).0.score
          (start_tag-clock p t.tenant_id) (rank-start_tag p t v))

  start_tag-rank_other :
      (p : Wfq) (t : Task) (tenant : Text)
      → text_eq t.tenant_id tenant ≡ false
      → start_tag (rank p t).1 tenant ≡ start_tag p tenant
  unfolding rank start_tag
  start_tag-rank_other p t tenant e =
      rw (start_tag, lookup-insert t.tenant_id tenant (rank p t).0.score p.last_finish, e) refl

  later_absorbs :
      (v k f : fl.F)
      → fl.ltf (later v f) k ≡ false
      → later (if fl.ltf v k then k else v) f ≡ later v f
  later_absorbs v k f h = ground (
    arith,
    h,
    fl.ltf_total v k,
    fl.ltf_total k f,
    fl.ltf_trans v k f,
    fl.ltf_trans k v f,
    fl.ltf_trans v f k,
    fl.ltf_irrefl v,
  )

  abbrev tag_of : fl.F → Option fl.F → fl.F
  tag_of v none = v
  tag_of v (some f) = later v f

  tag_of_absorbs :
      (v k : fl.F) (o : Option fl.F)
      → fl.ltf (tag_of v o) k ≡ false
      → tag_of (if fl.ltf v k then k else v) o ≡ tag_of v o
  tag_of_absorbs v k none h = rw h refl
  tag_of_absorbs v k (some f) h = later_absorbs v k f h

  start_tag_lem :
      (p : Wfq) (tenant : Text)
      → start_tag p tenant ≡ tag_of p.virtual_time (lookup tenant p.last_finish)
  unfolding start_tag
  start_tag_lem p tenant = elim (Option-cases (lookup tenant p.last_finish)) [
    | inl e ↦ rw (start_tag, e) refl
    | inr (f, e) ↦ rw (start_tag, e) refl
  ]

  notify_clock :
      (p : Wfq) (k : Key)
      → ((notify p k).virtual_time
          ≡ (if fl.ltf p.virtual_time k.score then k.score else p.virtual_time))
        × ((notify p k).last_finish ≡ p.last_finish)
  unfolding notify
  notify_clock p k = elim (Bool-cases (fl.ltf p.virtual_time k.score)) [
    | inl e ↦ rw (notify, e) (refl, refl)
    | inr e ↦ rw (notify, e) (refl, refl)
  ]

  -- A dispatch moves no tag of a busy tenant.
  start_tag-notify :
      (p : Wfq) (k : Key) (tenant : Text)
      → fl.ltf (start_tag p tenant) k.score ≡ false
      → start_tag (notify p k) tenant ≡ start_tag p tenant
  start_tag-notify p k tenant h =
      let (clock, tags) = notify_clock p k in
      start_tag_lem (notify p k) tenant
      ∙ rw (clock, tags)
          (tag_of_absorbs p.virtual_time k.score (lookup tenant p.last_finish)
            (rw (sym (start_tag_lem p tenant)) h))
      ∙ sym (start_tag_lem p tenant)

  add_exact :
      (a b : ℕ)
      → a + b ≤ 9007199254740992
      → fl.addf (fl.of_int (pos a)) (fl.of_int (pos b)) ≡ fl.of_int (pos (a + b))
  add_exact a b h =
      fl.addf-of_int (pos a) (pos b) (omega (arith, h), omega arith) (omega (arith, h), omega arith)
        (rw (pos-+ a b) (h, omega arith))
      ∙ ap fl.of_int (pos-+ a b)

  score-share :
      (p : Wfq) (t : Task) (base : ℕ)
      → start_tag p t.tenant_id ≡ fl.of_int (pos base)
      → IsShare p t
      → base + share t ≤ 9007199254740992
      → (rank p t).0.score ≡ fl.of_int (pos (base + share t))
  unfolding rank IsShare
  score-share p t base s e l =
      ap (λ x. fl.addf x (fl.divf (cost t) (weight p t.tenant_id))) s
      ∙ ap (fl.addf (fl.of_int (pos base))) (cost-IsShare p t e)
      ∙ add_exact base (share t) l

  -- A tenant that stays busy has its work for its tag.
  start_tag-work :
      (tenant : Text) (p : Wfq) (base : ℕ) (es : List Event)
      → IsValid p
      → start_tag p tenant ≡ fl.of_int (pos base)
      → IsBusy tenant p es
      → base + work tenant es ≤ 9007199254740992
      → start_tag (run p es) tenant ≡ fl.of_int (pos (base + work tenant es))
  unfolding run work IsBusy IsShare
  start_tag-work tenant p base [] v s b l = s ∙ ap (λ n. fl.of_int (pos n)) (omega arith)
  start_tag-work tenant p base (ranked t ∷ es) v s b l =
      elim (Bool-cases (text_eq t.tenant_id tenant)) [
        | inl e ↦
            let own : t.tenant_id ≡ tenant = (text_eq_iff t.tenant_id tenant).0 e in
            let small : base + (share t + work tenant es) ≤ 9007199254740992 =
              ground (arith, e, l) in
            rw e (
              start_tag-work tenant (rank p t).1 (base + share t) es (rank-IsValid p t v)
                (ap (start_tag (rank p t).1) (sym own)
                  ∙ start_tag-rank p t v
                  ∙ score-share p t base (ap (start_tag p) own ∙ s) b.0 (omega (arith, small)))
                b.1 (omega (arith, small))
              ∙ ap (λ n. fl.of_int (pos n)) (omega arith))
        | inr e ↦ rw e (
            start_tag-work tenant (rank p t).1 base es (rank-IsValid p t v)
              (start_tag-rank_other p t tenant e ∙ s) b.1 (ground (arith, e, l)))
      ]
  start_tag-work tenant p base (dispatched k ∷ es) v s b l =
      start_tag-work tenant (notify p k) base es (notify-IsValid p k v)
        (start_tag-notify p k tenant b.0 ∙ s) b.1 l

  -- Weighted fairness: two tenants that have been busy since their tags were equal are served by what
  -- they have asked for, which is the service time of their tasks in milliseconds, divided by their
  -- configured weights. Of two tasks, admitted at any two moments, the one with the lower score is
  -- the one through which its tenant has been given the smaller share, provided that the service
  -- times are positive, the shares are whole numbers and their sums stay within 2 ^ 53.
  pub rank-work :
      (p : Wfq) (base : ℕ) (es fs : List Event) (t u : Task)
      → IsValid p
      → start_tag p t.tenant_id ≡ fl.of_int (pos base)
      → start_tag p u.tenant_id ≡ fl.of_int (pos base)
      → IsBusy t.tenant_id p es
      → IsBusy u.tenant_id p fs
      → IsShare (run p es) t
      → IsShare (run p fs) u
      → base + (work t.tenant_id es + share t) ≤ 9007199254740992
      → base + (work u.tenant_id fs + share u) ≤ 9007199254740992
      → fl.ltf (rank (run p es) t).0.score (rank (run p fs) u).0.score
        ≡ ltb (work t.tenant_id es + share t) (work u.tenant_id fs + share u)
  rank-work p base es fs t u v st su bt bu et eu lt lu =
      let x =
        score-share (run p es) t (base + work t.tenant_id es)
          (start_tag-work t.tenant_id p base es v st bt (omega (arith, lt))) et
          (omega (arith, lt)) in
      let y =
        score-share (run p fs) u (base + work u.tenant_id fs)
          (start_tag-work u.tenant_id p base fs v su bu (omega (arith, lu))) eu
          (omega (arith, lu)) in
      ap (λ a. fl.ltf a (rank (run p fs) u).0.score) x
      ∙ ap (fl.ltf (fl.of_int (pos (base + work t.tenant_id es + share t)))) y
      ∙ fl.ltf-of_int _ _ (omega (arith, lt), omega arith) (omega (arith, lu), omega arith)
      ∙ ground arith
