-- ===== src/Policy/Wfq/Persist.antt =====
-- State and Restore of internal/scheduler/wfq: a restarted scheduler resumes its virtual clocks.
use mathlib.Core.Option
use distributed_task_queue_s.Prelude.{
  ◌≡◌, refl, sym, ◌∙◌, ap, true, false, Option, none, some, List, [], ◌∷◌, ◌++◌, Text, text_eq,
  text_eq_iff, text_eq_refl, lookup, insert, lookup-insert, is_some, Option-cases, Bool-cases, All,
  inl, inr, if◌then◌else◌, arith,
}
use distributed_task_queue_s.Env.Float.{Float64}
use distributed_task_queue_s.Policy.Wfq.{
  Wfq, ok, zero_f, state_virtual_time, state_finish_prefix, after_prefix, tag_entries, state,
  restore_entry, restore_loop, restore,
}

-- The key of a tenant's finish tag is recognised, and no other.
text_eq-prefix :
    (ps t k : Text)
    → text_eq (ps ++ t) k ≡ (elim (after_prefix ps k) [ none ↦ false | some j ↦ text_eq t j ])
unfolding text_eq after_prefix
text_eq-prefix [] t k = refl
text_eq-prefix (p ∷ ps) t [] = refl
text_eq-prefix (p ∷ ps) t (c ∷ k) = ground (arith, text_eq-prefix ps t k)

pub after_prefix-append : (ps t : Text) → after_prefix ps (ps ++ t) ≡ some t
unfolding after_prefix text_eq
after_prefix-append [] t = refl
after_prefix-append (p ∷ ps) t = ground (arith, after_prefix-append ps t)

module _ ⦃fl : Float64⦄ where
  -- What the persisted hash holds under a key.
  abbrev pub tag_of : List (Text × fl.F) → Option Text → Option Text
  tag_of m none = none
  tag_of m (some tenant) = Option.map fl.format_float (lookup tenant m)

  tag_entry :
      (tenant j : Text) (f : fl.F) (m : List (Text × fl.F)) (k : Text)
      → lookup k (tag_entries m) ≡ tag_of m (some j)
      → (if text_eq tenant j then some (fl.format_float f) else lookup k (tag_entries m))
        ≡ tag_of ((tenant, f) ∷ m) (some j)
  unfolding lookup
  tag_entry tenant j f m k h = ground arith

  pub lookup-tag_entries :
      (m : List (Text × fl.F)) (k : Text)
      → lookup k (tag_entries m) ≡ tag_of m (after_prefix state_finish_prefix k)
  unfolding lookup tag_entries
  lookup-tag_entries [] k = elim (Option-cases (after_prefix state_finish_prefix k)) [
    | inl e ↦ rw e
    | inr (j, e) ↦ rw e
  ]
  lookup-tag_entries ((tenant, f) ∷ m) k =
      elim (Option-cases (after_prefix state_finish_prefix k)) [
        | inl e ↦
            rw (e, text_eq-prefix state_finish_prefix tenant k, e)
              (rw e at (lookup-tag_entries m k))
        | inr (j, e) ↦
            rw (e, text_eq-prefix state_finish_prefix tenant k, e)
              (tag_entry tenant j f m k (lookup-tag_entries m k ∙ ap (tag_of m) e))
      ]

  after_prefix-eq : (ps k t : Text) → after_prefix ps k ≡ some t → k ≡ ps ++ t
  after_prefix-eq ps k t e =
      sym ((text_eq_iff (ps ++ t) k).0 (rw (text_eq-prefix ps t k, e) (text_eq_refl t)))

  -- The entries that a policy's State wrote, as a hash of Redis gives them back: in any order.
  pub record SameEntries (p : Wfq) (entries : List (Text × Text)) : Type 0 where
    pub sound : All (λ e. lookup e.0 (state p) ≡ some e.1) entries
    pub complete : (k v : Text) → lookup k (state p) ≡ some v → is_some (lookup k entries) ≡ true

  -- Restore's result for the entries that are left: theirs where there is one, `q`'s elsewhere.
  record Restored (p q r : Wfq) (entries : List (Text × Text)) : Type 0 where
    clock :
        r.virtual_time
        ≡ (if is_some (lookup state_virtual_time entries) then p.virtual_time else q.virtual_time)
    tags :
        (j : Text)
        → lookup j r.last_finish ≡ (
            if is_some (lookup (state_finish_prefix ++ j) entries)
            then lookup j p.last_finish
            else lookup j q.last_finish)
    weights : r.weights ≡ q.weights
    default_weight : r.default_weight ≡ q.default_weight

  -- What one round of Restore does for an entry that State wrote.
  record Stepped (p q r : Wfq) (k : Text) : Type 0 where
    clock :
        r.virtual_time ≡ (if text_eq k state_virtual_time then p.virtual_time else q.virtual_time)
    tags :
        (j : Text)
        → lookup j r.last_finish ≡ (
            if text_eq k (state_finish_prefix ++ j)
            then lookup j p.last_finish
            else lookup j q.last_finish)
    weights : r.weights ≡ q.weights
    default_weight : r.default_weight ≡ q.default_weight

  restore_clock :
      (p q : Wfq)
      → (r : Wfq) × (restore_entry q state_virtual_time (fl.format_float p.virtual_time) ≡ ok r)
        × Stepped p q r state_virtual_time
  unfolding restore_entry text_eq
  restore_clock p q = (
    record q { virtual_time = p.virtual_time },
    rw (fl.parse-format p.virtual_time, restore_entry),
    record { clock = refl; tags = λ j. refl; weights = refl; default_weight = refl },
  )

  restore_tag :
      (p q : Wfq) (tenant : Text) (f : fl.F)
      → lookup tenant p.last_finish ≡ some f
      → (r : Wfq) × (restore_entry q (state_finish_prefix ++ tenant) (fl.format_float f) ≡ ok r)
        × Stepped p q r (state_finish_prefix ++ tenant)
  unfolding restore_entry text_eq
  restore_tag p q tenant f e = (
    record q { last_finish = insert tenant f q.last_finish },
    rw (fl.parse-format f, restore_entry, after_prefix-append state_finish_prefix tenant),
    record {
      clock = refl;
      tags = λ j. ground (arith, lookup-insert tenant j f q.last_finish, text_eq_iff tenant j);
      weights = refl;
      default_weight = refl;
    },
  )

  restore_tagged :
      (p q : Wfq) (k text : Text)
      → lookup k (tag_entries p.last_finish) ≡ some text
      → (r : Wfq) × (restore_entry q k text ≡ ok r) × Stepped p q r k
  restore_tagged p q k text h = elim (Option-cases (after_prefix state_finish_prefix k)) [
    | inl e ↦ absurd (ground (arith, lookup-tag_entries p.last_finish k))
    | inr (tenant, e) ↦ elim (Option-cases (lookup tenant p.last_finish)) [
      | inl g ↦ absurd (ground (arith, lookup-tag_entries p.last_finish k))
      | inr (f, g) ↦
          let et : text ≡ fl.format_float f = ground (arith, lookup-tag_entries p.last_finish k) in
          rw (after_prefix-eq state_finish_prefix k tenant e, et) (restore_tag p q tenant f g)
    ]
  ]

  restore_entry-Stepped :
      (p q : Wfq) (k text : Text)
      → lookup k (state p) ≡ some text
      → (r : Wfq) × (restore_entry q k text ≡ ok r) × Stepped p q r k
  unfolding state lookup
  restore_entry-Stepped p q k text h = elim (Bool-cases (text_eq state_virtual_time k)) [
    | inl e ↦
        let ek : k ≡ state_virtual_time = sym ((text_eq_iff state_virtual_time k).0 e) in
        let et : text ≡ fl.format_float p.virtual_time = ground arith in
        rw (ek, et) (restore_clock p q)
    | inr e ↦ restore_tagged p q k text (rw e at h)
  ]

  restore_loop-Restored :
      (p q : Wfq) (entries : List (Text × Text))
      → All (λ e. lookup e.0 (state p) ≡ some e.1) entries
      → (r : Wfq) × (restore_loop q entries ≡ ok r) × Restored p q r entries
  unfolding restore_loop lookup
  restore_loop-Restored p q [] h =
      (q, refl, record { clock = refl; tags = λ j. refl; weights = refl; default_weight = refl })
  restore_loop-Restored p q ((k, text) ∷ entries) h =
      let (q', e, st) = restore_entry-Stepped p q k text h.0 in
      let (r, e', rs) = restore_loop-Restored p q' entries h.1 in
      (
        r,
        rw (e, restore_loop) e',
        record {
          clock = ground (arith, rs.clock, st.clock);
          tags = λ j. ground (arith, rs.tags j, st.tags j);
          weights = rs.weights ∙ st.weights;
          default_weight = rs.default_weight ∙ st.default_weight;
        },
      )

  pub lookup-state_clock :
      (p : Wfq) → lookup state_virtual_time (state p) ≡ some (fl.format_float p.virtual_time)
  unfolding state lookup text_eq
  lookup-state_clock p = refl

  lookup-state_tag :
      (p : Wfq) (tenant : Text) (f : fl.F)
      → lookup tenant p.last_finish ≡ some f
      → lookup (state_finish_prefix ++ tenant) (state p) ≡ some (fl.format_float f)
  unfolding state lookup text_eq
  lookup-state_tag p tenant f e = rw (
    lookup-tag_entries p.last_finish (state_finish_prefix ++ tenant),
    after_prefix-append state_finish_prefix tenant,
    e,
  )

  complete_tags :
      (p : Wfq) (entries : List (Text × Text)) (tenant : Text)
      → SameEntries p entries
      → (if is_some (lookup (state_finish_prefix ++ tenant) entries)
          then lookup tenant p.last_finish
          else none)
        ≡ lookup tenant p.last_finish
  complete_tags p entries tenant same = elim (Option-cases (lookup tenant p.last_finish)) [
    | inl e ↦ ground (arith, e)
    | inr (f, e) ↦ rw (same.complete _ (fl.format_float f) (lookup-state_tag p tenant f e))
  ]

  -- Restoring what State wrote, in whatever order the entries come back, succeeds and gives the
  -- virtual clock and every tenant's finish tag back; the configured weights stay the restarting
  -- policy's own, and what clocks it had are dropped.
  pub restore-state :
      (p q : Wfq) (entries : List (Text × Text))
      → SameEntries p entries
      → (r : Wfq) × (restore q entries ≡ ok r)
        × (r.virtual_time ≡ p.virtual_time)
        × ((tenant : Text) → lookup tenant r.last_finish ≡ lookup tenant p.last_finish)
        × (r.weights ≡ q.weights)
        × (r.default_weight ≡ q.default_weight)
  unfolding restore lookup
  restore-state p q entries same =
      let q' = record q { virtual_time = zero_f; last_finish = [] } in
      let (r, e, rs) = restore_loop-Restored p q' entries same.sound in
      (
        r,
        e,
        ground (
          arith,
          rs.clock,
          same.complete state_virtual_time (fl.format_float p.virtual_time) (lookup-state_clock p),
        ),
        λ tenant. rs.tags tenant ∙ complete_tags p entries tenant same,
        rs.weights,
        rs.default_weight,
      )
