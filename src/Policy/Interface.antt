-- ===== src/Policy/Interface.antt =====
-- The interface of internal/scheduler/policy/policy.go and the four policies behind it.
use distributed_task_queue_s.Prelude.{Option, none, some, List, [], Text}
use distributed_task_queue_s.Domain.Task.{Task}
use distributed_task_queue_s.Env.Float.{Float64}
use distributed_task_queue_s.Policy.Key.{Key}
use distributed_task_queue_s.Policy.Fifo
use distributed_task_queue_s.Policy.Priority
use distributed_task_queue_s.Policy.Edf
use distributed_task_queue_s.Policy.Wfq

module _ ⦃fl : Float64⦄ where
  -- What a policy remembers, and its methods Rank, Notify, State and Restore, where `none` is an
  -- error.
  pub record Policy : Type 1 where
    pub State : Type 0
    pub rank : State → Task → Key × State
    pub notify : State → Key → State
    pub state : State → List (Text × Text)
    pub restore : State → List (Text × Text) → Option State

  -- A policy that remembers nothing.
  abbrev pub stateless : (Task → Key) → Policy
  stateless rank = record {
    State = Unit;
    rank = λ u t. (rank t, u);
    notify = λ u k. u;
    state = λ u. [];
    restore = λ u entries. some u;
  }

  abbrev pub fifo_policy : Policy
  fifo_policy = stateless Fifo.rank

  abbrev pub priority_policy : Policy
  priority_policy = stateless Priority.rank

  abbrev pub edf_policy : Policy
  edf_policy = stateless Edf.rank

  abbrev pub restored : Wfq.Result → Option Wfq.Wfq
  restored (Wfq.ok p) = some p
  restored (Wfq.err e) = none

  abbrev pub wfq_policy : Policy
  wfq_policy = record {
    State = Wfq.Wfq;
    rank = Wfq.rank;
    notify = Wfq.notify;
    state = Wfq.state;
    restore = λ p entries. restored (Wfq.restore p entries);
  }
