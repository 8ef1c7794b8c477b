-- ===== src/Bench/Runner.antt =====
-- Parts of internal/bench/runner.go that decide the bounds of an experiment.
use distributed_task_queue_s.Prelude.{
  ℤ, pos, ◌+ℤ◌, ◌*ℤ◌, ◌≤ℤ◌, ltb_ℤ, leb_ℤ, if◌then◌else◌, arith, pos_part,
}
use distributed_task_queue_s.Lease.Options.{part}

-- `total / slots`.
unfoldable pub share_of : ℤ → ℤ → ℤ
unfolding part
share_of total slots = part total (pos_part slots)

abbrev clamp_between : ℤ → ℤ → ℤ → ℤ
clamp_between lo hi d =
    let floored = if ltb_ℤ d lo then lo else d in if ltb_ℤ hi floored then hi else floored

-- Half a minute to half an hour, whatever the plan.
unfoldable pub derive_timeout : ℤ → ℤ → ℤ → ℤ
unfolding share_of
derive_timeout span total_exec_ms slots =
    let used = if leb_ℤ slots (pos 0) then pos 1 else slots in
    clamp_between (pos 30000000000) (pos 1800000000000)
      ((span +ℤ share_of total_exec_ms used *ℤ pos 1000000) *ℤ pos 3)

unfoldable pub effective_max_in_flight : ℤ → ℤ → ℤ → ℤ
effective_max_in_flight max_in_flight worker_processes worker_concurrency =
    if ltb_ℤ (pos 0) max_in_flight then max_in_flight else worker_processes *ℤ worker_concurrency

-- The wait for an experiment is bounded from both sides.
pub derive_timeout_bounds :
    (span total_exec_ms slots : ℤ)
    → (pos 30000000000 ≤ℤ derive_timeout span total_exec_ms slots)
      × (derive_timeout span total_exec_ms slots ≤ℤ pos 1800000000000)
unfolding derive_timeout
derive_timeout_bounds span total_exec_ms slots = clamped (
    (span +ℤ share_of total_exec_ms (if leb_ℤ slots (pos 0) then pos 1 else slots) *ℤ pos 1000000)
    *ℤ pos 3)
  where
    clamped :
        (d : ℤ)
        → (pos 30000000000 ≤ℤ clamp_between (pos 30000000000) (pos 1800000000000) d)
          × (clamp_between (pos 30000000000) (pos 1800000000000) d ≤ℤ pos 1800000000000)
    clamped d = (ground arith, ground arith)
