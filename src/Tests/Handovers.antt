-- ===== src/Tests/Handovers.antt =====
-- A campaign for the lease, a change of leader, and a task that every delivery loses.
use distributed_task_queue_s.Prelude.{
  ℕ, ◌≡◌, ◌⊎◌, refl, true, false, some, List, [], ◌∷◌, pos, lookup,
}
use distributed_task_queue_s.Broker.Store.{no_store}
use distributed_task_queue_s.Policy.Interface.{wfq_policy}
use distributed_task_queue_s.Policy.Wfq
use distributed_task_queue_s.Policy.Wfq.{Wfq}
use distributed_task_queue_s.Lease.Client.{no_grant}
use distributed_task_queue_s.Lease.Campaign.{Round, campaign, tick, returned, finished, canceled}
use distributed_task_queue_s.Lease.Terms.{HasTerms, last_told, campaign-HasTerms}
use distributed_task_queue_s.Process.World.{World, answer}
use distributed_task_queue_s.Process.Serve.{flush_state}
use distributed_task_queue_s.Process.Handover.{
  IsMap, restore_state, Resumed, restore_state-flush_state,
}
use distributed_task_queue_s.Process.Lost.{Loss}
use distributed_task_queue_s.Tests.Numbers.{integers}
use distributed_task_queue_s.Tests.Memory.{memory}
use distributed_task_queue_s.Tests.Wire.{wire}
use distributed_task_queue_s.Tests.Policies.{fresh, left_behind}
use distributed_task_queue_s.Tests.Leases.{owner_1, start}

-- A term whose first renewal finds the lease gone, then one that its own loops end.
abbrev two_rounds : List Round
two_rounds =
    record {
      ended_before = false;
      acked = some 2;
      events = tick false ∷ tick false ∷ [];
      unwound = canceled;
      ended_after = false;
    }
    ∷ record {
      ended_before = false;
      acked = some 2;
      events = tick false ∷ returned finished ∷ [];
      unwound = finished;
      ended_after = true;
    }
    ∷ []

campaign-HasTerms_example :
    HasTerms (campaign 1 owner_1 two_rounds no_grant start).notices
    × ((last_told true (campaign 1 owner_1 two_rounds no_grant start).notices ≡ true)
        ⊎ ((campaign 1 owner_1 two_rounds no_grant start).grant.value ≡ []))
campaign-HasTerms_example = campaign-HasTerms 1 owner_1 two_rounds no_grant start refl

abbrev quiet : World
quiet = record { store = no_store; trips = [] }

left_behind-IsMap : IsMap left_behind.last_finish
unfolding IsMap lookup
left_behind-IsMap = (refl, tt)

abbrev flushed : World
flushed = (flush_state wfq_policy left_behind (pos 1) quiet).0

flushed_lem : (flush_state wfq_policy left_behind (pos 1) quiet).1 ≡ answer 2
unfolding flush_state Wfq.state
flushed_lem = refl

flushed_quiet : flushed.trips ≡ []
unfolding flush_state Wfq.state
flushed_quiet = refl

restore_state-flush_state_example :
    (r : Wfq) × (restore_state wfq_policy fresh flushed ≡ (flushed, some r))
    × Resumed left_behind fresh r
restore_state-flush_state_example =
    restore_state-flush_state left_behind fresh (pos 1) 2 quiet flushed left_behind-IsMap
      flushed_lem refl flushed_quiet

abbrev losses : ℕ → Loss
losses n = record {
  max_len = 0;
  reason = [];
  msg = b'm' ∷ [];
  failed_at = pos 3000000000;
  now = pos 3000000000;
}
