-- ===== src/Tests/Runs.antt =====
-- A whole term of the engine, what is read of it afterwards, and the replay of a plan.
use distributed_task_queue_s.Prelude.{
  ◌≡◌, ◌↔◌, refl, false, true, none, some, List, [], ◌∷◌, ◌-◌, ◌+ℤ◌, All, is_some, ℤ, pos, Text,
  arith, ltb_ℤ, if◌then◌else◌,
}
use distributed_task_queue_s.Policy.Key.{zero_padded}
use distributed_task_queue_s.Broker.Scripts.{get_counter}
use distributed_task_queue_s.Broker.Store.{ExecEntry, no_store}
use distributed_task_queue_s.Lease.Scripts.{acquire_script}
use distributed_task_queue_s.System.Terms.{InOrder}
use distributed_task_queue_s.Workload.{Spec}
use distributed_task_queue_s.Bench.Failover.{
  epoch_inversions, dispatch_record, epoch_inversions-dispatch_record,
}
use distributed_task_queue_s.Process.World.{World, answer}
use distributed_task_queue_s.Process.Engine.{Round, ingest, reclaim, serve, flush, lead_term}
use distributed_task_queue_s.Process.Idle.{undisturbed, IsLeft}
use distributed_task_queue_s.Process.Deposed.{Superseded-lead_term}
use distributed_task_queue_s.Process.Reads.{leadership}
use distributed_task_queue_s.Process.Shown.{leadership-acquire_script}
use distributed_task_queue_s.Process.Replay.{Tick, submit_plan}
use distributed_task_queue_s.Process.Replayed.{planned, Replayed, submit_plan-Replayed}
use distributed_task_queue_s.Tests.Numbers.{integers}
use distributed_task_queue_s.Tests.Memory.{memory}
use distributed_task_queue_s.Tests.Wire.{wire}
use distributed_task_queue_s.Tests.Fences.{served, old_leader}
use distributed_task_queue_s.Tests.Policies.{fresh}
use distributed_task_queue_s.Policy.Interface.{wfq_policy}
use distributed_task_queue_s.Tests.Leases.{owner_1}

abbrev quiet : World
quiet = record { store = no_store; trips = [] }

-- A term that takes a task in, dispatches it, saves its clocks and looks for stranded entries.
abbrev rounds : List Round
rounds =
    ingest (some ((b'1' ∷ [], b't' ∷ []) ∷ []))
    ∷ serve (pos 5000000000)
    ∷ flush
    ∷ reclaim (some ([], []))
    ∷ ingest none
    ∷ []

abbrev entry_of : ℤ → ExecEntry
entry_of epoch = record { task = []; dispatched_at_ms = pos 7; epoch = some epoch }

-- A late write of term 1 behind one of term 2, and a retry in between.
abbrev late : List ExecEntry
late =
    entry_of (pos 2)
    ∷ record { task = []; dispatched_at_ms = pos 8; epoch = none }
    ∷ entry_of (pos 1)
    ∷ []

one_inversion : epoch_inversions (dispatch_record late) ≡ 1
unfolding epoch_inversions dispatch_record
one_inversion = refl

epoch_inversions-dispatch_record_example :
    (epoch_inversions (dispatch_record late) ≡ 0) ↔ InOrder late
epoch_inversions-dispatch_record_example = epoch_inversions-dispatch_record late

-- Reads a text of one digit.
abbrev one_digit : Text → ℤ
one_digit (c ∷ []) = pos (c - 48)
one_digit s = pos 0

one_digit_lem :
    one_digit (zero_padded 1 (acquire_script owner_1 no_store).1.0)
    ≡ (acquire_script owner_1 no_store).1.0
unfolding zero_padded acquire_script get_counter ◌+ℤ◌
one_digit_lem = refl

leadership-acquire_script_example :
    (leadership one_digit
      (pos 900)
      (record { store = (acquire_script owner_1 no_store).0; trips = [] })).1
    ≡ answer (
        some (record {
          owner = owner_1;
          epoch = (acquire_script owner_1 no_store).1.0;
          ttl = if ltb_ℤ (pos 0) (pos 900) then pos 900 else pos 0;
        }))
leadership-acquire_script_example =
    leadership-acquire_script one_digit (pos 900) owner_1 no_store refl one_digit_lem

abbrev spec_of : Text → ℤ → Spec
spec_of id offset = record {
  id = id;
  tenant_id = b'a' ∷ [];
  offset = offset;
  exec_millis = pos 10;
  priority = pos 1;
  deadline_slack_millis = pos 1000;
  max_retries = pos 3;
}

abbrev plan : List Spec
plan = spec_of (b'x' ∷ []) (pos 0) ∷ spec_of (b'y' ∷ []) (pos 5000) ∷ []

abbrev ticks : List Tick
ticks =
    record { early = false; cut_short = false; now = pos 100 }
    ∷ record { early = true; cut_short = false; now = pos 5100 }
    ∷ []

plan_marshals : All (λ t. is_some (wire.marshal_task t) ≡ true) (planned plan ticks)
unfolding planned
plan_marshals = (refl, (refl, tt))

submit_plan-Replayed_example :
    Replayed plan ticks no_store (submit_plan 0 64 (pos 100) (pos 5200) plan ticks quiet)
submit_plan-Replayed_example =
    submit_plan-Replayed 64 (pos 100) (pos 5200) plan ticks no_store (omega arith)
      (refl, (refl, tt)) plan_marshals

-- The leader of term 1 leads on when the one of term 2 has dispatched.
Superseded-lead_term_example :
    IsLeft served (lead_term wfq_policy (pos 1) 4 2 0 rounds fresh (undisturbed served)).0
Superseded-lead_term_example =
    Superseded-lead_term wfq_policy (pos 1) 4 2 0 rounds fresh served old_leader
