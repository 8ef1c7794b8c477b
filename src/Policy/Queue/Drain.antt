-- ===== src/Policy/Queue/Drain.antt =====
-- Drain ends, and gives the pending tasks in the order of their keys.
use native.Mathlib.Nat.{ℕ_set}
use mathlib.Core.Logic.{∥∥₁_elim}
use mathlib.Core.List.{Perm, Permᴰ, Pairwise, mem-cons_of_mem}
use mathlib.Core.List.Perm
use distributed_task_queue_s.Prelude.{
  ℕ, zero, suc, ◌≡◌, ◌<◌, refl, ap, ◌∙◌, inl, inr, false, none, some, Option-cases, List, [], ◌∷◌,
  length, map, arith,
}
use distributed_task_queue_s.Domain.Task.{Task}
use distributed_task_queue_s.Env.Float.{Float64}
use distributed_task_queue_s.Env.Heap.{Heaps}
use distributed_task_queue_s.Policy.Interface.{Policy}
use distributed_task_queue_s.Policy.Queue.{
  Entry, entry_less, Queue, next, pending, drain_loop, drain,
}

Permᴰ-length {ℓ} : {A : Type ℓ} {l r : List A} → Permᴰ l r → length l ≡ length r
Permᴰ-length Permᴰ.nil = refl
Permᴰ-length (Permᴰ.cons e p) = ap (λ n. suc n) (Permᴰ-length p)
Permᴰ-length (Permᴰ.swap x y) = refl
Permᴰ-length (Permᴰ.trans p q) = Permᴰ-length p ∙ Permᴰ-length q

length-perm {ℓ} : {A : Type ℓ} {l r : List A} → Perm l r → length l ≡ length r
length-perm p = ∥∥₁_elim p (ℕ_set _ _) Permᴰ-length

module _ ⦃fl : Float64⦄ where
  -- No later entry has the lesser key.
  abbrev pub IsSorted : List Entry → Type 0
  IsSorted = Pairwise (λ e f. entry_less f e ≡ false)

  module _ (policy : Policy) (heap : Heaps Entry entry_less) where
    -- The tasks of entries that are a permutation of the pending ones, in order.
    pub record Drained (q : Queue policy heap) (ts : List Task) : Type 0 where
      pub entries : List Entry
      pub tasks : ts ≡ map (λ e. e.task) entries
      pub same : Perm entries (heap.items q.h)
      pub sorted : IsSorted entries

    next_empty : (q : Queue policy heap) → heap.pop q.h ≡ none → next policy heap q ≡ none
    unfolding next
    next_empty q e = rw (e, next) refl

    next_entry :
        (q : Queue policy heap) (it : Entry) (rest : heap.Heap)
        → heap.pop q.h ≡ some (it, rest)
        → next policy heap q
          ≡ some (it.task, record { state = policy.notify q.state it.key; h = rest })
    unfolding next
    next_entry q it rest e = rw (e, next) refl

    drain_loop-Drained :
        (fuel : ℕ) (q : Queue policy heap)
        → length (heap.items q.h) < fuel
        → (ts : List Task) × (drain_loop policy heap fuel q ≡ some ts) × Drained q ts
    unfolding drain_loop
    drain_loop-Drained zero q h = ground arith
    drain_loop-Drained (suc fuel) q h = elim (Option-cases (heap.pop q.h)) [
      | inl e ↦ (
        [],
        rw (next_empty q e, drain_loop) refl,
        record {
          entries = [];
          tasks = refl;
          same = rw (heap.pop_none q.h e) (Perm.refl []);
          sorted = Pairwise.nil;
        },
      )
      | inr ((it, rest), e) ↦
          let q' : Queue policy heap = record { state = policy.notify q.state it.key; h = rest } in
          let whole = heap.pop_items q.h it rest e in
          let (ts, d, r) = drain_loop-Drained fuel q' (omega (arith, h, length-perm whole)) in
          (
            it.task ∷ ts,
            rw (next_entry q it rest e, drain_loop, d) refl,
            record {
              entries = it ∷ r.entries;
              tasks = ap (λ us. it.task ∷ us) r.tasks;
              same = Perm.trans (Perm.cons it r.same) whole;
              sorted =
                  Pairwise.cons
                    (λ x m.
                      heap.pop_least q.h it rest e x
                        ((Perm.mem_iff whole).0 (mem-cons_of_mem it ((Perm.mem_iff r.same).0 m))))
                    r.sorted;
            },
          )
    ]

    -- Drain ends after one round more than there are pending tasks, and returns exactly the pending
    -- tasks, each as often as it is pending, in an order in which no later task has the lesser key.
    pub drain-Drained :
        (q : Queue policy heap) → (ts : List Task) × (drain policy heap q ≡ some ts) × Drained q ts
    unfolding pending drain
    drain-Drained q = drain_loop-Drained (suc (pending policy heap q)) q (omega arith)
