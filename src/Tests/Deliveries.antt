-- ===== src/Tests/Deliveries.antt =====
-- A task from its admission to its end, and again.
use distributed_task_queue_s.Prelude.{
  ℕ, ◌≡◌, refl, some, ◌⊎◌, inl, Bool, true, false, List, [], ◌∷◌, Text, ℤ, ◌+ℤ◌, ◌<ℤ◌, pos, lookup,
  insert, text_eq,
}
use distributed_task_queue_s.Policy.Key.{Key, task_id_from_member}
use distributed_task_queue_s.Broker.Store.{Store, ExecEntry, no_store}
use distributed_task_queue_s.Broker.Scripts.{
  reply, fenced_error, ack_old, admit_script, complete_script, dispatch_script, retry_script,
}
use distributed_task_queue_s.Broker.Cases.{is_done}
use distributed_task_queue_s.Broker.Room.{Room, dispatch_script-Room}
use distributed_task_queue_s.Lease.Scripts.{acquire_script, expire}
use distributed_task_queue_s.System.Steps.{done, more, expires}
use distributed_task_queue_s.System.Books.{books}
use distributed_task_queue_s.System.Balance.{Balanced, inflight_never_drifts}
use distributed_task_queue_s.System.Once.{
  Known, suppressed, admitted_at_most_once, terminal_at_most_once,
}
use distributed_task_queue_s.System.Grants.{epochs_increase}
use distributed_task_queue_s.Process.World.{World, arrives, reply_lost, answer}
use distributed_task_queue_s.Process.Calls.{IngressMessage}
use distributed_task_queue_s.Process.Finish.{ExecMessage, retry_or_dead_letter}
use distributed_task_queue_s.Process.Attempts.{Attempts}
use distributed_task_queue_s.Process.Worker.{Clock, recorded, execute}
use distributed_task_queue_s.Process.Claim.{origin, once}
use distributed_task_queue_s.Process.Pass.{Passed, once-Passed}
use distributed_task_queue_s.Process.Twice.{Suppressed, executed_at_most_once}
use distributed_task_queue_s.Tests.Numbers.{integers}
use distributed_task_queue_s.Tests.Memory.{memory, least}
use distributed_task_queue_s.Tests.Samples.{small, urgent}
use distributed_task_queue_s.Tests.Wire.{wire}
use distributed_task_queue_s.Tests.Fences.{task_1, key_1, payload_1, admitted, served, served-Steps}

abbrev entry_1 : Text
entry_1 = b'1' ∷ b'-' ∷ b'0' ∷ []

abbrev entry_2 : Text
entry_2 = b'2' ∷ b'-' ∷ b'0' ∷ []

abbrev message_1 : ExecMessage
message_1 = record { id = entry_1; task = small; dispatched_at = pos 9000000; epoch = pos 2 }

abbrev clock_1 : Clock
clock_1 = record {
  started = pos 10000000;
  finished = pos 15000000;
  failed_at = pos 16000000;
  now = pos 17000000;
}

abbrev quiet : Store → World
quiet s = record { store = s; trips = [] }

abbrev ended : World
ended = (execute 0 (pos 3) [] [] false false clock_1 message_1 (quiet served)).0

ended_lem :
    execute 0 (pos 3) [] [] false false clock_1 message_1 (quiet served)
    ≡ (ended, answer (recorded true))
unfolding execute lookup dispatch_script admit_script least insert text_eq task_id_from_member ◌+ℤ◌
ended_lem = refl

executed_at_most_once_example :
    Suppressed (execute 0 (pos 3) [] [] true false clock_1 message_1 ended).1
executed_at_most_once_example =
    executed_at_most_once 0 0 (pos 3) (pos 3) [] [] [] [] false false true false clock_1 clock_1
      message_1 message_1 (quiet served) ended ended ended_lem done refl

ended_done : is_done ended.store task_1 ≡ true
unfolding execute lookup dispatch_script admit_script least insert text_eq task_id_from_member ◌+ℤ◌
ended_done = refl

terminal_at_most_once_example :
    ((result tenant : Text) (service : ℤ) (missed : Bool) (now : ℤ) (msg : Text) (max_len : ℕ)
      → complete_script task_1 result tenant service missed now msg max_len ended.store
        ≡ suppressed msg ended.store)
    × ((retry_json dead_json : Text) (is_dead : Bool) (now : ℤ) (msg : Text) (max_len : ℕ)
        → retry_script task_1 retry_json dead_json is_dead now msg max_len ended.store
          ≡ (ack_old msg ended.store, reply 0))
terminal_at_most_once_example = terminal_at_most_once ended.store ended.store task_1 ended_done done

admitted-Known : Known (books admitted) task_1
unfolding admit_script lookup insert text_eq
admitted-Known = inl refl

admitted_at_most_once_example :
    Known (books admitted) task_1
    × ((key : Key) (submitted : ℤ) (payload : Text) (epoch : ℤ)
        → let r = admit_script task_1 key submitted payload epoch admitted in
          (r.0 ≡ record admitted { fence = r.0.fence }) × ((r.1 ≡ reply 0) ⊎ (r.1 ≡ fenced_error)))
admitted_at_most_once_example = admitted_at_most_once admitted admitted task_1 admitted-Known done

no_store-Balanced : Balanced (books no_store)
unfolding ◌+ℤ◌ lookup
no_store-Balanced = record { adds_up = refl }

inflight_never_drifts_example : Balanced (books served)
inflight_never_drifts_example = inflight_never_drifts no_store served no_store-Balanced served-Steps

dispatch_script-Room_example : Room 1 (pos 9) (pos 2) 0 admitted (served, (key_1, payload_1) ∷ [])
unfolding admit_script dispatch_script lookup least insert text_eq task_id_from_member ◌+ℤ◌
dispatch_script-Room_example =
    dispatch_script-Room 1 (pos 9) (pos 2) 4 0 admitted served ((key_1, payload_1) ∷ []) refl

-- The lease is granted to a, expires, and is granted to b.
abbrev owner_a : Text
owner_a = b'a' ∷ []

abbrev owner_b : Text
owner_b = b'b' ∷ []

abbrev elected : Store
elected = (acquire_script owner_a no_store).0

epochs_increase_example :
    (acquire_script owner_a no_store).1.0 <ℤ (acquire_script owner_b (expire elected)).1.0
unfolding expire
epochs_increase_example =
    epochs_increase no_store (expire elected) owner_a owner_b refl (more done expires) refl

-- The reply to the first admission is lost.
abbrev batch : List IngressMessage
batch = record { id = entry_1; task = small } ∷ record { id = entry_2; task = urgent } ∷ []

abbrev losing : World
losing = record {
  store = no_store;
  trips =
      record { before = λ s. (s, done); fate = arrives }
      ∷ record { before = λ s. (expire s, more done expires); fate = reply_lost }
      ∷ [];
}

-- The first of the two retries that the task may have.
abbrev failed : World
failed = (retry_or_dead_letter 0 small (pos 2) [] entry_1 (pos 1) (pos 2) (quiet served)).0

-- XAUTOCLAIM replies with the served entry, and with the end of the scan.
abbrev stale : List (Text × ExecEntry)
stale = (entry_1, record { task = payload_1; dispatched_at_ms = pos 9; epoch = some (pos 2) }) ∷ []

once-Passed_example :
    Passed stale
      (quiet served)
      (once 0 (pos 3) [] (λ k. clock_1) (some (stale, origin)) origin (quiet served))
once-Passed_example = once-Passed 0 (pos 3) [] (λ k. clock_1) stale origin origin (quiet served)
