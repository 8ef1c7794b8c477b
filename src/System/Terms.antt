-- ===== src/System/Terms.antt =====
-- The fencing of internal/broker/scripts.go on the execution stream: no superseded leader's dispatch
-- ever stands behind its successor's.
use distributed_task_queue_s.Prelude.{
  ℕ, ◌≡◌, List, [], ◌∷◌, ◌++◌, All, All-append, All-append_right, All-map, ℤ, pos, pos_part,
  neg_part, ◌≤ℤ◌, ◌<ℤ◌, Text, arith, get_or, ap,
}
use distributed_task_queue_s.Env.Float.{Float64}
use distributed_task_queue_s.Env.Redis.{Redis}
use distributed_task_queue_s.Broker.Store.{ExecEntry}

-- The term that an entry is attributed to; 0 for a retry and without an election.
abbrev pub term : ExecEntry → ℤ
term e = get_or e.epoch (pos 0)

abbrev Below : ℤ → ExecEntry → Type 0
Below hi e = pos 0 <ℤ term e → term e ≤ℤ hi

abbrev pub NotBefore : ExecEntry → ExecEntry → Type 0
NotBefore e f = pos 0 <ℤ term e → pos 0 <ℤ term f → term e ≤ℤ term f

-- Reading the entries in order, the epochs of the terms never go backwards.
abbrev pub InOrder : List ExecEntry → Type 0
InOrder [] = Unit
InOrder (e ∷ es) = All (NotBefore e) es × InOrder es

InOrder-append_right : (xs ys : List ExecEntry) → InOrder (xs ++ ys) → InOrder ys
InOrder-append_right [] ys h = h
InOrder-append_right (x ∷ xs) ys h = InOrder-append_right xs ys h.1

InOrder-concat :
    (hi : ℤ) (xs : List ExecEntry) (y : ExecEntry)
    → All (Below hi) xs
    → InOrder xs
    → (pos 0 <ℤ term y → hi ≤ℤ term y)
    → InOrder (xs ++ y ∷ [])
InOrder-concat hi [] y b o h = (tt, tt)
InOrder-concat hi (x ∷ xs) y b o h = (
  All-append (NotBefore x) xs (y ∷ []) o.0 ((λ p q. omega (arith, b.0 p, h q)), tt),
  InOrder-concat hi xs y b.1 o.1 h,
)

module _ ⦃fl : Float64⦄ ⦃redis : Redis⦄ where
  open redis use {Cell, Stream, entries, xadd, xack}

  -- The entries of the stream are in order, and none is of a term above the floor.
  pub record Terms (hi : ℤ) (st : Stream ExecEntry) : Type 0 where
    pub below : All (Below hi) (entries st)
    pub ordered : InOrder (entries st)

  pub Terms-raise : (lo hi : ℤ) (st : Stream ExecEntry) → lo ≤ℤ hi → Terms lo st → Terms hi st
  Terms-raise lo hi st h t = record {
    below = All-map (Below lo) (Below hi) (entries st) (λ e b p. omega (arith, b p, h)) t.below;
    ordered = t.ordered;
  }

  pub Terms-xack :
      (hi : ℤ) (st : Stream ExecEntry) (id : Text) → Terms hi st → Terms hi (xack st id)
  Terms-xack hi st id t = record {
    below = rw (redis.entries-xack st id) t.below;
    ordered = rw (redis.entries-xack st id) t.ordered;
  }

  -- A new entry is of no term, or of the term whose epoch is the floor.
  pub Terms-xadd :
      (hi : ℤ) (st : Stream ExecEntry) (max_len : ℕ) (e : ExecEntry)
      → (pos 0 <ℤ term e → term e ≡ hi)
      → Terms hi st
      → Terms hi (xadd st max_len e)
  Terms-xadd hi st max_len e at_floor t =
      let (dropped, eq) = redis.entries-xadd_trim st max_len e in
      let whole =
        InOrder-concat hi (entries st) e t.below t.ordered
          (λ p. omega (arith, ap pos_part (at_floor p), ap neg_part (at_floor p))) in
      let under : All (Below hi) (entries st ++ e ∷ []) =
        All-append (Below hi) (entries st) (e ∷ []) t.below
          ((λ p. omega (arith, ap pos_part (at_floor p), ap neg_part (at_floor p))), tt) in
      record {
        below = All-append_right (Below hi) dropped _ (rw eq under);
        ordered = InOrder-append_right dropped _ (rw eq whole);
      }
