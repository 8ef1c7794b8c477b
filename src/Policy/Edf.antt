-- ===== src/Policy/Edf.antt =====
-- internal/scheduler/edf.
use distributed_task_queue_s.Prelude.{ℤ, pos, leb_ℤ, ◌&&◌, if◌then◌else◌}
use distributed_task_queue_s.Env.Float.{Float64}
use distributed_task_queue_s.Domain.Task.{Task, deadline_millis}
use distributed_task_queue_s.Policy.Key.{Key, member_for}

abbrev pub no_deadline_score : ℤ
no_deadline_score = pos 1000000000000000

module _ ⦃fl : Float64⦄ where
  -- `ms != 0` fails when `ms` is neither above nor below 0.
  unfoldable pub rank : Task → Key
  rank t =
      let ms = deadline_millis t in
      record {
        score = fl.of_int (if leb_ℤ ms (pos 0) && leb_ℤ (pos 0) ms then no_deadline_score else ms);
        member = member_for t;
      }
