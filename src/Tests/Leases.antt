-- ===== src/Tests/Leases.antt =====
-- A leader's term and the calls of a process around it.
use distributed_task_queue_s.Prelude.{some, [], ◌∷◌, Text}
use distributed_task_queue_s.Broker.Store.{no_store}
use distributed_task_queue_s.Lease.Client.{Grant, no_grant, acquire, renew}
use distributed_task_queue_s.Lease.Held.{Renewal, renew-Renewal}
use distributed_task_queue_s.System.Steps.{done, more, expires}
use distributed_task_queue_s.Lease.Scripts.{expire}
use distributed_task_queue_s.System.Books.{Entries, books, steps_are_entries}
use distributed_task_queue_s.Process.World.{World, arrives, reply_lost}
use distributed_task_queue_s.Tests.Numbers.{integers}
use distributed_task_queue_s.Tests.Memory.{memory}
use distributed_task_queue_s.Tests.Wire.{wire}
use distributed_task_queue_s.Tests.Fences.{served, served-Steps}

abbrev pub owner_1 : Text
owner_1 = b's' ∷ b'1' ∷ []

-- The first call arrives; before the second the holder key expires; the third loses its reply.
abbrev pub start : World
start = record {
  store = no_store;
  trips =
      record { before = λ s. (s, done); fate = arrives }
      ∷ record { before = λ s. (s, done); fate = arrives }
      ∷ record { before = λ s. (expire s, more done expires); fate = arrives }
      ∷ record { before = λ s. (s, done); fate = reply_lost }
      ∷ [];
}

-- The grant that the first call brought, and the world after it.
abbrev leading : World
leading = (acquire 1 (some 2) owner_1 no_grant start).0

abbrev grant_1 : Grant
grant_1 = (acquire 1 (some 2) owner_1 no_grant start).1

renew-Renewal_example : Renewal grant_1 (renew grant_1 leading)
renew-Renewal_example = renew-Renewal grant_1 leading

steps_are_entries_example : Entries (books no_store) (books served)
steps_are_entries_example = steps_are_entries no_store served served-Steps

-- The leader of term 1 comes back when the one of term 2 has dispatched.
abbrev returning : World
returning = record { store = served; trips = [] }
