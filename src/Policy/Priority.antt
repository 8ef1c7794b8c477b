-- ===== src/Policy/Priority.antt =====
-- internal/scheduler/priority.
use distributed_task_queue_s.Prelude.{ℤ, pos, ◌-ℤ◌, ltb_ℤ, if◌then◌else◌}
use distributed_task_queue_s.Env.Float.{Float64}
use distributed_task_queue_s.Domain.Task.{Task, submitted_at_millis, max_priority}
use distributed_task_queue_s.Policy.Key.{Key, member_for}

abbrev pub band_width : ℤ
band_width = pos 10000000000000

-- The priority, brought into 0..max_priority.
unfoldable pub clamped : Task → ℤ
clamped t =
    let prio = if ltb_ℤ t.priority (pos 0) then pos 0 else t.priority in
    if ltb_ℤ max_priority prio then max_priority else prio

module _ ⦃fl : Float64⦄ where
  unfoldable pub rank : Task → Key
  unfolding clamped
  rank t =
      let band = fl.of_int (max_priority -ℤ clamped t) in
      record {
        score = fl.addf (fl.mulf band (fl.of_int band_width)) (fl.of_int (submitted_at_millis t));
        member = member_for t;
      }
