-- ===== src/Tests/Plans.antt =====
-- Plans and statistics: a generator that always draws the least number, and a heap that is a list.
use mathlib.Core.List.{Mem, Memᴰ, Perm}
use mathlib.Core.List.Perm
use mathlib.Core.Logic.{∥∥₁_elim}
use distributed_task_queue_s.Prelude.{
  ℕ, suc, ◌≡◌, ◌⊎◌, refl, sym, subst, inl, inr, Bool, true, false, Bool-cases, Option, none, some,
  is_some, get_or, List, [], ◌∷◌, All, ℤ, pos, ltb_ℤ, ◌≤ℤ◌, codes, lookup, if◌then◌else◌, arith,
}
use distributed_task_queue_s.Env.Float.{IsExact}
use distributed_task_queue_s.Env.Random.{Random}
use distributed_task_queue_s.Env.Heap.{Heaps}
use distributed_task_queue_s.Domain.Task.{Task}
use distributed_task_queue_s.Domain.Result
use distributed_task_queue_s.Domain.Result.{Result}
use distributed_task_queue_s.Policy.Key.{Key, less}
use distributed_task_queue_s.Policy.Order.{less_irrefl, less_trans, less_total}
use distributed_task_queue_s.Policy.Interface.{edf_policy}
use distributed_task_queue_s.Policy.Queue.{Entry, entry_less, Queue, new_queue, admit_all, drain}
use distributed_task_queue_s.Policy.Queue.Drain.{Drained, drain-Drained}
use distributed_task_queue_s.Process.Calls.{has}
use distributed_task_queue_s.Bench.{tenant_counts}
use distributed_task_queue_s.Bench.Counts.{results_of, tenant_counts-results_of}
use distributed_task_queue_s.Burner.{burn_for}
use distributed_task_queue_s.Burner.Chunks.{IsSplit, burn_for-IsSplit}
use distributed_task_queue_s.Tests.Numbers.{integers}
use distributed_task_queue_s.Tests.Samples.{tenant_a, small, urgent}

to_int_low_lem : (x n : ℤ) → ltb_ℤ x (pos 0) ≡ false → ltb_ℤ n x ≡ false → IsExact n → pos 0 ≤ℤ x
to_int_low_lem x n h k e = ground (arith, h)

instance abbrev least_draws : Random
least_draws = record {
  Source = ℕ;
  source = λ seed. 0;
  float64 = λ s. (suc s, pos 0);
  int63n = λ n s. (suc s, pos 0);
  log = λ x. pos 0;
  pow = λ x y. pos 1;
  round = λ x. x;
  to_int = λ x. x;
  smallest = pos 1;
  int63n_low = λ n s h. omega arith;
  smallest_positive = refl;
  pow_nonneg = λ x y h. refl;
  to_int_low = to_int_low_lem;
}

-- The least entry of a list that is not empty, and the others.
abbrev select : Entry → List Entry → Entry × List Entry
select x [] = (x, [])
select x (y ∷ ys) =
    if entry_less y x
    then (let (m, r) = select y ys in (m, x ∷ r))
    else (let (m, r) = select x ys in (m, y ∷ r))

select_perm : (x : Entry) (ys : List Entry) → Perm ((select x ys).0 ∷ (select x ys).1) (x ∷ ys)
select_perm x [] = Perm.refl (x ∷ [])
select_perm x (y ∷ ys) = elim (Bool-cases (entry_less y x)) [
  | inl e ↦
      rw e
        (Perm.trans (Perm.swap x (select y ys).0 (select y ys).1) (Perm.cons x (select_perm y ys)))
  | inr e ↦ rw e (
      Perm.trans (Perm.swap y (select x ys).0 (select x ys).1)
        (Perm.trans (Perm.cons y (select_perm x ys)) (Perm.swap x y ys)))
]

below_trans : (x y m : Key) → less y x ≡ true → less y m ≡ false → less x m ≡ false
below_trans x y m p q = ground (arith, p, q, less_trans y x m)

above_trans : (x y m : Key) → less y x ≡ false → less x m ≡ false → less y m ≡ false
above_trans x y m p q = ground (arith, p, q, less_total y x, less_trans x y m, less_total x y)

IsLeast : Entry → List Entry → Type 0
IsLeast m = All (λ z. less z.key m.key ≡ false)

select_head :
    (x y : Entry) (ys : List Entry) (b : Bool)
    → entry_less y x ≡ b
    → (select x (y ∷ ys)).0 ≡ (if b then (select y ys).0 else (select x ys).0)
select_head x y ys true e = rw e refl
select_head x y ys false e = rw e refl

select-IsLeast : (x : Entry) (ys : List Entry) → IsLeast (select x ys).0 (x ∷ ys)
unfolding IsLeast entry_less
select-IsLeast x [] = (less_irrefl x.key, tt)
select-IsLeast x (y ∷ ys) = elim (Bool-cases (less y.key x.key)) [
  | inl e ↦
      let h = select-IsLeast y ys in
      subst (λ m. IsLeast m (x ∷ y ∷ ys)) (sym (select_head x y ys true e))
        (below_trans x.key y.key (select y ys).0.key e h.0, h)
  | inr e ↦
      let h = select-IsLeast x ys in
      subst (λ m. IsLeast m (x ∷ y ∷ ys)) (sym (select_head x y ys false e))
        (h.0, (above_trans x.key y.key (select x ys).0.key e h.0, h.1))
]

All-Memᴰ {κ} : {A : Type 0} (P : A → Type κ) {x : A} {xs : List A} → All P xs → Memᴰ x xs → P x
All-Memᴰ P h (Memᴰ.head e) = subst P (sym e) h.0
All-Memᴰ P h (Memᴰ.tail m) = All-Memᴰ P h.1 m

abbrev pop_list : List Entry → Option (Entry × List Entry)
pop_list [] = none
pop_list (x ∷ xs) = some (select x xs)

pop_list_empty : (h : List Entry) → pop_list h ≡ none → h ≡ []
pop_list_empty [] e = refl
pop_list_empty (x ∷ xs) e = cc

selected :
    (x : Entry) (xs : List Entry) (e : Entry) (rest : List Entry)
    → pop_list (x ∷ xs) ≡ some (e, rest)
    → select x xs ≡ (e, rest)
selected x xs e rest p = cc

pop_list_items :
    (h : List Entry) (e : Entry) (rest : List Entry)
    → pop_list h ≡ some (e, rest)
    → Perm (e ∷ rest) h
pop_list_items [] e rest p = cc
pop_list_items (x ∷ xs) e rest p =
    subst (λ r. Perm (r.0 ∷ r.1) (x ∷ xs)) (selected x xs e rest p) (select_perm x xs)

pop_list_least :
    (h : List Entry) (e : Entry) (rest : List Entry)
    → pop_list h ≡ some (e, rest)
    → (x : Entry) → Mem x h
    → entry_less x e ≡ false
unfolding entry_less IsLeast
pop_list_least [] e rest p z m = cc
pop_list_least (x ∷ xs) e rest p z m = ∥∥₁_elim m (hlevel) (
    All-Memᴰ (λ y. less y.key e.key ≡ false)
      (subst (λ r. IsLeast r.0 (x ∷ xs)) (selected x xs e rest p) (select-IsLeast x xs)))

abbrev entries : Heaps Entry entry_less
entries = record {
  Heap = List Entry;
  empty = [];
  items = λ h. h;
  push = λ h e. e ∷ h;
  pop = pop_list;
  items-empty = refl;
  items-push = λ h e. Perm.refl (e ∷ h);
  pop_none = pop_list_empty;
  pop_items = pop_list_items;
  pop_least = pop_list_least;
}

abbrev two_pending : Queue edf_policy entries
two_pending = admit_all edf_policy entries (new_queue edf_policy entries tt) (urgent ∷ small ∷ [])

drain-Drained_example :
    (ts : List Task) × (drain edf_policy entries two_pending ≡ some ts)
    × Drained edf_policy entries two_pending ts
drain-Drained_example = drain-Drained edf_policy entries two_pending

abbrev finished : Result
finished = record {
  task_id = small.id;
  attempt_id = small.attempt_id;
  tenant_id = tenant_a;
  outcome = Result.completed;
  priority = small.priority;
  submitted_at = small.submitted_at;
  dispatched_at = pos 2100000000;
  started_at = pos 2200000000;
  finished_at = pos 2300000000;
  deadline = small.deadline;
  exec_millis = pos 5;
  actual_exec_millis = pos 6;
  retry_count = pos 0;
  worker = [];
  error = [];
}

tenant_counts-results_of_example :
    (get_or (lookup tenant_a (tenant_counts (finished ∷ []) (codes "b" ∷ []))) 0
      ≡ results_of tenant_a (finished ∷ []))
    × ((has tenant_a (codes "b" ∷ []) ≡ false)
        ⊎ (is_some (lookup tenant_a (tenant_counts (finished ∷ []) (codes "b" ∷ []))) ≡ true))
tenant_counts-results_of_example =
    tenant_counts-results_of (finished ∷ []) (codes "b" ∷ []) tenant_a

burn_for-IsSplit_example : (ns : List ℕ) × (burn_for (λ d. false) 5000 ≡ some ns) × IsSplit 5000 ns
burn_for-IsSplit_example = burn_for-IsSplit 5000
