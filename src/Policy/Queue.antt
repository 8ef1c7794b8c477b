-- ===== src/Policy/Queue.antt =====
-- internal/scheduler/policy/queue.go: the pending set in memory.
pub mod Drain
use distributed_task_queue_s.Prelude.{
  ℕ, zero, suc, Bool, Option, none, some, List, [], ◌∷◌, length, map,
}
use distributed_task_queue_s.Domain.Task.{Task}
use distributed_task_queue_s.Env.Float.{Float64}
use distributed_task_queue_s.Env.Heap.{Heaps}
use distributed_task_queue_s.Policy.Key.{Key, less}
use distributed_task_queue_s.Policy.Interface.{Policy}

module _ ⦃fl : Float64⦄ where
  pub record Entry : Type 0 where
    pub key : Key
    pub task : Task

  -- entryHeap.Less, on the entries.
  unfoldable pub entry_less : Entry → Entry → Bool
  entry_less e f = less e.key f.key

  pub record Queue (policy : Policy) (heap : Heaps Entry entry_less) : Type 0 where
    pub state : policy.State
    pub h : heap.Heap

  module _ (policy : Policy) (heap : Heaps Entry entry_less) where
    unfoldable pub new_queue : policy.State → Queue policy heap
    new_queue p = record { state = p; h = heap.empty }

    unfoldable pub admit : Queue policy heap → Task → Key × Queue policy heap
    admit q t =
        let (k, p) = policy.rank q.state t in
        (k, record { state = p; h = heap.push q.h (record { key = k; task = t }) })

    -- The task and the queue after it; `none` if no task is pending.
    unfoldable pub next : Queue policy heap → Option (Task × Queue policy heap)
    next q = elim (heap.pop q.h) [
      | none ↦ none
      | some (it, rest) ↦ some (it.task, record { state = policy.notify q.state it.key; h = rest })
    ]

    unfoldable pub pending : Queue policy heap → ℕ
    pending q = length (heap.items q.h)

    -- The loop of Drain; `none` if it does not end within the fuel.
    unfoldable pub drain_loop : ℕ → Queue policy heap → Option (List Task)
    drain_loop zero q = none
    drain_loop (suc fuel) q = elim (next q) [
      | none ↦ some []
      | some (t, rest) ↦ (elim (drain_loop fuel rest) [ none ↦ none | some ts ↦ some (t ∷ ts) ])
    ]

    -- A round for each pending task, and one that finds none.
    unfoldable pub drain : Queue policy heap → Option (List Task)
    unfolding drain_loop pending
    drain q = drain_loop (suc (pending q)) q

    unfoldable pub admit_all : Queue policy heap → List Task → Queue policy heap
    unfolding admit
    admit_all q [] = q
    admit_all q (t ∷ ts) = admit_all (admit q t).1 ts
