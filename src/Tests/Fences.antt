-- ===== src/Tests/Fences.antt =====
-- A leader that is superseded while it runs.
use distributed_task_queue_s.Prelude.{
  ℕ, ◌≡◌, refl, some, List, [], ◌∷◌, Text, ℤ, ◌+ℤ◌, pos, arith, lookup, insert, text_eq,
}
use distributed_task_queue_s.Policy.Key.{Key, task_id_from_member}
use distributed_task_queue_s.Broker.Store.{Store, no_store}
use distributed_task_queue_s.Broker.Scripts.{
  fenced_error, admit_script, dispatch_script, save_state_script,
}
use distributed_task_queue_s.Broker.Guard.{Superseded}
use distributed_task_queue_s.Broker.Order.{Least, dispatch_script-Least}
use distributed_task_queue_s.System.Steps.{Steps, done, more, admit, dispatch}
use distributed_task_queue_s.System.Terms.{InOrder}
use distributed_task_queue_s.System.Fencing.{Fenced, dispatches-InOrder, Superseded-stays_out}
use distributed_task_queue_s.Tests.Numbers.{integers}
use distributed_task_queue_s.Tests.Memory.{memory, least}

abbrev pub task_1 : Text
task_1 = b't' ∷ b'1' ∷ []

abbrev pub key_1 : Key
key_1 = record { score = pos 7; member = b'0' ∷ b'|' ∷ task_1 }

abbrev pub payload_1 : Text
payload_1 = b'{' ∷ b'}' ∷ []

-- A leader of term 2 admits a task and dispatches it.
abbrev pub admitted : Store
admitted = (admit_script task_1 key_1 (pos 0) payload_1 (pos 2) no_store).0

abbrev pub served : Store
served = (dispatch_script 4 1 (pos 9) 0 (pos 2) admitted).0

pub served-Steps : Steps no_store served
served-Steps =
    more (more done (admit task_1 key_1 (pos 0) payload_1 (pos 2))) (dispatch 4 1 (pos 9) 0 (pos 2))

served_entries :
    memory.entries served.exec
    ≡ record { task = payload_1; dispatched_at_ms = pos 9; epoch = some (pos 2) } ∷ []
unfolding admit_script dispatch_script lookup least insert text_eq task_id_from_member ◌+ℤ◌
served_entries = refl

no_store-Fenced : Fenced no_store
no_store-Fenced = record { below = tt; ordered = tt }

dispatches-InOrder_example : InOrder (memory.entries served.exec)
dispatches-InOrder_example = dispatches-InOrder no_store served no_store-Fenced served-Steps

pub old_leader : Superseded (pos 1) served
unfolding admit_script dispatch_script lookup least insert text_eq task_id_from_member ◌+ℤ◌
old_leader = (omega arith, omega arith)

Superseded-stays_out_example :
    ((task_id : Text) (key : Key) (submitted : ℤ) (payload : Text)
      → admit_script task_id key submitted payload (pos 1) served ≡ (served, fenced_error))
    × ((n limit : ℕ) (now : ℤ) (max_len : ℕ)
        → dispatch_script n limit now max_len (pos 1) served ≡ (served, fenced_error))
    × ((state : List (Text × Text))
        → save_state_script state (pos 1) served ≡ (served, fenced_error))
Superseded-stays_out_example = Superseded-stays_out served served (pos 1) old_leader done

dispatch_script-Least_example : Least 4 admitted (served, (key_1, payload_1) ∷ [])
unfolding admit_script dispatch_script lookup least insert text_eq task_id_from_member ◌+ℤ◌
dispatch_script-Least_example =
    dispatch_script-Least 4 1 (pos 9) 0 (pos 2) admitted served ((key_1, payload_1) ∷ []) refl
