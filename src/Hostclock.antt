-- ===== src/Hostclock.antt =====
-- internal/hostclock/hostclock.go: how long the host was asleep, from the two clocks of time.Time. The
-- readings are nanoseconds on each clock; their differences do not saturate within 292 years.
use distributed_task_queue_s.Prelude.{Bool, ℤ, pos, ◌-ℤ◌, ltb_ℤ, if◌then◌else◌}
use distributed_task_queue_s.Domain.Time.{Time}

pub record Watch : Type 0 where
  pub mono : Time
  pub wall : Time

-- A reading of time.Now: the monotonic clock, and the wall clock that Round(0) leaves.
unfoldable pub start : Time → Time → Watch
start mono wall = record { mono = mono; wall = wall }

unfoldable pub elapsed : Watch → Time → Time → ℤ × ℤ
elapsed w mono wall = (mono -ℤ w.mono, wall -ℤ w.wall)

unfoldable pub suspended : Watch → Time → Time → ℤ
unfolding elapsed
suspended w mono wall =
    let (m, e) = elapsed w mono wall in let d = e -ℤ m in if ltb_ℤ (pos 0) d then d else pos 0

abbrev pub default_threshold : ℤ
default_threshold = pos 2000000000

unfoldable pub suspected : Watch → Time → Time → Bool
unfolding suspended
suspected w mono wall = ltb_ℤ default_threshold (suspended w mono wall)
