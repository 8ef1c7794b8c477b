-- ===== src/Policy/Wfq/Clock.antt =====
-- The virtual clock of internal/scheduler/wfq: what New establishes and Rank and Notify keep.
use distributed_task_queue_s.Prelude.{
  ◌≡◌, true, false, none, some, List, [], ◌∷◌, Text, lookup, lookup-insert, Option-cases, inl, inr,
  arith, Bool-cases, pos,
}
use distributed_task_queue_s.Env.Float.{Float64}
use distributed_task_queue_s.Domain.Task.{Task}
use distributed_task_queue_s.Policy.Key.{Key}
use distributed_task_queue_s.Policy.Wfq.{
  Wfq, ok, zero_f, one_f, check_weights, new, weight, start_tag, cost, rank, notify,
}

module _ ⦃fl : Float64⦄ where
  abbrev pub NotNegative : fl.F → Type 0
  NotNegative x = fl.ltf x zero_f ≡ false

  -- Weights are positive, clocks not negative.
  pub record IsValid (p : Wfq) : Type 0 where
    pub weights_positive :
        (tenant : Text) (w : fl.F) → lookup tenant p.weights ≡ some w → fl.ltf zero_f w ≡ true
    pub default_positive : fl.ltf zero_f p.default_weight ≡ true
    pub clock : NotNegative p.virtual_time
    pub tags : (tenant : Text) (f : fl.F) → lookup tenant p.last_finish ≡ some f → NotNegative f

  weight_positive : (p : Wfq) (tenant : Text) → IsValid p → fl.ltf zero_f (weight p tenant) ≡ true
  unfolding weight
  weight_positive p tenant v = elim (Option-cases (lookup tenant p.weights)) [
    | inl e ↦ rw e v.default_positive
    | inr (w, e) ↦ rw e (v.weights_positive tenant w e)
  ]

  abbrev zero-lt-one : Type 0
  zero-lt-one = fl.ltf zero_f one_f ≡ true

  one_positive : zero-lt-one
  one_positive = fl.ltf-of_int (pos 0) (pos 1) (omega arith) (omega arith)

  -- `x` is not below `y`, so what is not negative is not below zero.
  pub le_trans_f : (x y z : fl.F) → fl.ltf y x ≡ false → fl.ltf z y ≡ false → fl.ltf z x ≡ false
  le_trans_f x y z p q =
      ground (arith, fl.ltf_total x y, fl.ltf_total y z, fl.ltf_trans z x y, fl.ltf_trans y z x)

  positive-NotNegative : (x : fl.F) → fl.ltf zero_f x ≡ true → NotNegative x
  positive-NotNegative x h = ground (arith, fl.ltf_trans zero_f x zero_f, fl.ltf_irrefl zero_f)

  cost-NotNegative : (t : Task) → NotNegative (cost t)
  unfolding cost
  cost-NotNegative t = ground (
    arith,
    one_positive,
    positive-NotNegative one_f,
    positive-NotNegative (fl.of_int t.exec_millis),
  )

  start_tag-NotNegative : (p : Wfq) (tenant : Text) → IsValid p → NotNegative (start_tag p tenant)
  unfolding start_tag
  start_tag-NotNegative p tenant v = elim (Option-cases (lookup tenant p.last_finish)) [
    | inl e ↦ rw (e, start_tag) v.clock
    | inr (f, e) ↦ rw (e, start_tag) (ground (arith, v.tags tenant f e, v.clock))
  ]

  -- The finish tag is not below the start tag.
  pub rank-start_tag :
      (p : Wfq) (t : Task) → IsValid p → fl.ltf (rank p t).0.score (start_tag p t.tenant_id) ≡ false
  unfolding rank
  rank-start_tag p t v =
      fl.addf_nonneg _ _ (start_tag-NotNegative p t.tenant_id v)
        (fl.divf_nonneg (cost t) _ (cost-NotNegative t) (weight_positive p t.tenant_id v))

  rank-NotNegative : (p : Wfq) (t : Task) → IsValid p → NotNegative (rank p t).0.score
  rank-NotNegative p t v =
      le_trans_f zero_f (start_tag p t.tenant_id) (rank p t).0.score
        (start_tag-NotNegative p t.tenant_id v) (rank-start_tag p t v)

  -- Rank keeps a policy well formed: weights positive, clocks not negative.
  pub rank-IsValid : (p : Wfq) (t : Task) → IsValid p → IsValid (rank p t).1
  unfolding rank
  rank-IsValid p t v = record {
    weights_positive = v.weights_positive;
    default_positive = v.default_positive;
    clock = v.clock;
    tags = λ tenant f e. ground (
      arith,
      rank-NotNegative p t v,
      lookup-insert t.tenant_id tenant (rank p t).0.score p.last_finish,
      v.tags tenant f,
    );
  }

  pub notify-IsValid : (p : Wfq) (k : Key) → IsValid p → IsValid (notify p k)
  unfolding notify
  notify-IsValid p k v = elim (Bool-cases (fl.ltf p.virtual_time k.score)) [
    | inl e ↦ rw e (record {
      weights_positive = v.weights_positive;
      default_positive = v.default_positive;
      clock = ground (arith, v.clock, le_trans_f zero_f p.virtual_time k.score, below k.score e);
      tags = v.tags;
    })
    | inr e ↦ rw e v
  ]
    where
      below : (x : fl.F) → fl.ltf p.virtual_time x ≡ true → fl.ltf x p.virtual_time ≡ false
      below x h =
          ground (arith, fl.ltf_trans p.virtual_time x p.virtual_time, fl.ltf_irrefl p.virtual_time)

  check_weights-lookup :
      (ws : List (Text × fl.F)) (tenant : Text) (w : fl.F)
      → check_weights ws ≡ none
      → lookup tenant ws ≡ some w
      → fl.ltf zero_f w ≡ true
  unfolding check_weights lookup
  check_weights-lookup [] tenant w h e = cc
  check_weights-lookup ((j, x) ∷ ws) tenant w h e = ground (arith, check_weights-lookup ws tenant w)

  -- A policy that New returns is well formed: the default and every tenant's weight are positive,
  -- and no clock is negative.
  pub new-IsValid : (ws : List (Text × fl.F)) (d : fl.F) (p : Wfq) → new ws d ≡ ok p → IsValid p
  unfolding new lookup
  new-IsValid ws d p e = record {
    weights_positive = λ tenant w h. ground (arith, check_weights-lookup ws tenant w);
    default_positive = ground (arith, one_positive);
    clock = ground (arith, fl.ltf_irrefl zero_f);
    tags = λ tenant f h. ground arith;
  }
