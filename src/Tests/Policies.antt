-- ===== src/Tests/Policies.antt =====
-- The scheduling policies at work on the samples.
use distributed_task_queue_s.Prelude.{
  ◌≡◌, refl, false, List, [], ◌∷◌, ◌++◌, some, Text, text_ltb, pos, arith, lookup, text_eq,
}
use distributed_task_queue_s.Domain.Time.{unix_milli}
use distributed_task_queue_s.Domain.Task.{submitted_at_millis}
use distributed_task_queue_s.Policy.Key.{less, member_for, task_id_from_member}
use distributed_task_queue_s.Policy.Member.{
  earlier, text_ltb-member_for, task_id_from_member-member_for,
}
use distributed_task_queue_s.Policy.Priority
use distributed_task_queue_s.Policy.Ranks.{priority_order}
use distributed_task_queue_s.Policy.Wfq
use distributed_task_queue_s.Policy.Wfq.{Wfq, weight, start_tag, cost, state, tag_entries}
use distributed_task_queue_s.Policy.Wfq.Clock.{IsValid, new-IsValid}
use distributed_task_queue_s.Policy.Wfq.Tenant.{Event, dispatched, run, tenant_order}
use distributed_task_queue_s.Policy.Wfq.Persist.{SameEntries, restore-state}
use distributed_task_queue_s.Tests.Numbers.{integers}
use distributed_task_queue_s.Tests.Samples.{tenant_a, small, urgent}

member_of_small :
    member_for small
    ≡ b'0' ∷ b'0' ∷ b'0' ∷ b'0' ∷ b'0' ∷ b'0' ∷ b'0' ∷ b'0' ∷ b'0' ∷ b'2' ∷ b'0' ∷ b'0' ∷ b'0'
      ∷ b'|' ∷ b't' ∷ b'1' ∷ []
unfolding member_for submitted_at_millis unix_milli
member_of_small = refl

task_id_from_member-member_for_example :
    task_id_from_member (member_for small) ≡ some (b't' ∷ b'1' ∷ [])
task_id_from_member-member_for_example = task_id_from_member-member_for small

text_ltb-member_for_example :
    text_ltb (member_for small) (member_for urgent) ≡ earlier 2000 2001 small urgent
unfolding submitted_at_millis unix_milli
text_ltb-member_for_example =
    text_ltb-member_for small urgent 2000 2001 refl refl (omega arith) (omega arith)

priority_order_example : less (Priority.rank small) (Priority.rank urgent) ≡ false
unfolding submitted_at_millis unix_milli
priority_order_example =
    priority_order small urgent 2000 2001 refl refl (omega arith) (omega arith) 3 7 refl refl
      (omega arith) (omega arith)

-- Tenant a weighs 5, any other 1.
abbrev pub fresh : Wfq
fresh = record {
  weights = (tenant_a, pos 5) ∷ [];
  default_weight = pos 1;
  virtual_time = pos 0;
  last_finish = [];
}

fresh_lem : Wfq.new ((tenant_a, pos 5) ∷ []) (pos 1) ≡ Wfq.Result.ok fresh
unfolding Wfq.new
fresh_lem = refl

pub fresh-IsValid : IsValid fresh
fresh-IsValid = new-IsValid ((tenant_a, pos 5) ∷ []) (pos 1) fresh fresh_lem

abbrev between : List Event
between = dispatched (record { score = pos 40; member = [] }) ∷ []

tenant_order_example :
    integers.ltf
      (Wfq.rank (run (Wfq.rank fresh small).1 between) urgent).0.score
      (Wfq.rank fresh small).0.score
    ≡ false
tenant_order_example = tenant_order fresh small urgent between fresh-IsValid refl

-- The clocks that a scheduler left behind, as Redis gives them back.
abbrev pub left_behind : Wfq
left_behind = record fresh { virtual_time = pos 7; last_finish = (tenant_a, pos 40) ∷ [] }

abbrev entries : List (Text × Text)
entries =
    (Wfq.state_finish_prefix ++ tenant_a, integers.format_float (pos 40))
    ∷ (Wfq.state_virtual_time, integers.format_float (pos 7))
    ∷ []

entries-SameEntries : SameEntries left_behind entries
unfolding lookup text_eq state tag_entries
entries-SameEntries = record { sound = (refl, (refl, tt)); complete = λ k v h. ground arith }

restore-state_example :
    (r : Wfq) × (Wfq.restore fresh entries ≡ Wfq.Result.ok r)
    × (r.virtual_time ≡ pos 7)
    × ((tenant : Text) → lookup tenant r.last_finish ≡ lookup tenant left_behind.last_finish)
    × (r.weights ≡ fresh.weights)
    × (r.default_weight ≡ fresh.default_weight)
restore-state_example = restore-state left_behind fresh entries entries-SameEntries
