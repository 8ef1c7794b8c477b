-- ===== src/Tests/Loops.antt =====
-- The loops of a term that run side by side, what they portion, and the wait for Redis.
use distributed_task_queue_s.Prelude.{
  ◌≡◌, refl, true, false, List, [], ◌∷◌, ◌≢◌, lookup, insert, ◌*ℤ◌, ◌+ℤ◌, ℕ, pos, text_eq, arith,
  if◌then◌else◌,
}
use distributed_task_queue_s.Env.Float.{IsExact}
use distributed_task_queue_s.Domain.Task.{Task}
use distributed_task_queue_s.Domain.Time.{Time}
use distributed_task_queue_s.Policy.Wfq.{weight, start_tag, cost, rank, notify}
use distributed_task_queue_s.Policy.Wfq.Tenant.{Event, ranked, dispatched, run}
use distributed_task_queue_s.Policy.Wfq.Fair.{work, IsShare, IsBusy, rank-work}
use distributed_task_queue_s.Process.Waiting.{
  Attempt, next_backoff, wait_ready, waiting, IsPaced, wait_ready-ends,
}
use distributed_task_queue_s.Tests.Numbers.{integers}
use distributed_task_queue_s.Tests.Samples.{tenant_a, small}
use distributed_task_queue_s.Tests.Memory.{memory}
use distributed_task_queue_s.Tests.Wire.{wire}
use distributed_task_queue_s.Tests.Policies.{fresh, fresh-IsValid}

abbrev instant : Time → Attempt
instant t = record { reached = false; ended = false; now = t; interrupted = false }

-- Three attempts for 0.15 s.
wait_ready-ends_example :
    wait_ready
      (pos 0)
      (pos 150000000)
      false
      (instant (pos 1) ∷ instant (pos 100000001) ∷ instant (pos 300000001) ∷ [])
    ≢ waiting
unfolding IsPaced next_backoff ◌*ℤ◌ ◌+ℤ◌
wait_ready-ends_example =
    wait_ready-ends (pos 0) (pos 150000000) false (instant (pos 1))
      (instant (pos 100000001) ∷ instant (pos 300000001) ∷ [])
      (omega arith, (omega arith, (omega arith, tt))) (omega arith)

-- Tenant a has 5 ms of work at weight 5, tenant b 3 ms at weight 1.
abbrev other : Task
other = record small { tenant_id = b'b' ∷ []; exec_millis = pos 3 }

abbrev portion : Task → ℕ
portion t = if text_eq t.tenant_id tenant_a then 1 else 3

abbrev two_of_a : List Event
two_of_a = ranked small ∷ dispatched (record { score = pos 1; member = [] }) ∷ []

abbrev one_of_b : List Event
one_of_b = ranked other ∷ []

rank-work_example :
    integers.ltf (rank (run fresh two_of_a) small).0.score (rank (run fresh one_of_b) other).0.score
    ≡ true
unfolding IsBusy IsShare start_tag cost weight rank notify run lookup text_eq insert ◌+ℤ◌ work
rank-work_example =
    let exact : IsExact (pos 3) × IsExact (pos 5) =
      ((omega arith, omega arith), (omega arith, omega arith)) in
    let five : IsShare portion fresh small = (omega arith, exact.1, refl) in
    let three : IsShare portion fresh other = (omega arith, exact.0, refl) in
    rank-work portion fresh 0 two_of_a one_of_b small other fresh-IsValid refl refl
      (five, (refl, tt)) (three, tt) five three (omega arith) (omega arith)
