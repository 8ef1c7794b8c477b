-- ===== src/Lib.antt =====
-- A distributed task queue: producers submit tasks to a Redis stream, one elected scheduler ranks
-- them and dispatches them to workers, and a recovery loop takes back what a dead worker held. This
-- library models the core of it.
--
-- Parts, with the files they model:
-- - Domain: internal/domain/task.go and result.go. Records, Validate (`validate`), the deadline
--   test. Text is a list of bytes, time.Time an integer of nanoseconds.
-- - Config: internal/config. The records, Default, applyDefaults, Validate and Load.
-- - Startup: cmd/scheduler/main.go, from the flags to the lease options.
-- - Policy: internal/scheduler. Key, MemberFor, TaskIDFromMember and Less of policy/policy.go are in
--   Policy/Key.antt; fifo, priority, edf and wfq have a file each; Policy/Interface.antt is the Go
--   interface, Policy/Choose.antt scheduler.go and policy/names.go, Policy/Queue.antt
--   policy/queue.go.
-- - Broker: internal/broker. `Store` is what one namespace of keys.go holds in Redis; each Lua
--   script of scripts.go is a function of the store (Broker/Scripts.antt), with `guarded` for the
--   fence that is put before three of them. Broker/Keys.antt is NewKeys.
-- - Lease: internal/lease/lease.go. The three scripts; New; Acquire, Renew and Release; Campaign and
--   serveTerm as a machine over the events that its select sees.
-- - System: all processes together. A `Step` is one script or command, with any arguments and from
--   anyone, or the end of the lease's time to live; `Steps` is a run. Redis runs a script whole, so
--   runs are the interleavings of the processes, crashes and lost messages included. Reading a
--   stream changes only who holds an entry, so it is no step; what a read replies is an argument.
-- - Process: one process's view. A `World` is the store with a plan of what happens around its next
--   calls: steps of others before each, and whether the request or the reply is lost. In it run
--   the methods of internal/broker/broker.go; of internal/scheduler/engine.go admitBatch, a pass of
--   dispatchLoop, restoreState, and in Engine.antt the rounds of all loops, serveLoops and leadTerm;
--   WaitReady and EnsureStreams (Waiting.antt); Once of internal/recovery/recovery.go; execute and a
--   round of slotLoop of internal/worker/worker.go; and the producer of
--   internal/workload/producer.go (Replay.antt).
-- - Workload: internal/workload/workload.go and load.go, the plan that a seed determines.
-- - Bench: internal/bench/stats.go, tenant.go and summary.go, the bounds of runner.go, and what
--   cmd/failoverbench and cmd/storefaultbench measure on a stream and on the lease.
-- - Hostclock and Burner: internal/hostclock/hostclock.go and internal/worker/exec.go.
-- - Console: of internal/console the event log, Classify and Rate; the faults that supervisor.go
--   lets a request cause and how they end (Request.antt, Supervisor.antt, and Cluster.antt for the
--   set-up); and the checks and handlers of such a request in server.go (Server.antt).
-- - Env: what comes from outside. Float64 has the laws of IEEE 754 that the code relies on (no
--   NaN; the two zeros are one value), Redis the documented laws of its data types, Random and Heap
--   those of math/rand and container/heap, Codec is encoding/json without laws. Tests/ has an
--   instance of each and runs the results that use one on it.
-- - Prelude: integers, texts and association lists over the native numbers, shared by all.
--
-- Choices. Integers have no upper bound, except the duration of a requested fault and what the
-- workload generator gives to Int63n, which wrap around as int64: counters, epochs and
-- milliseconds stay far below 2^63, and Lua prints epochs below 10^14 in plain decimal. A duration
-- saturates where Go's Sub does. Zero-padded digits are produced on fuel, width plus the number,
-- which is at least the digits of any number. The loop of the dispatch script runs on the number
-- of its rounds, a drain of the policy queue on one round more than it holds, the burner's loop on
-- one round for each iteration to burn, its calibration on twelve doublings; a generated plan
-- takes one round for each task, and a task that is lost again and again one for each retry. A
-- campaign, a term and a replay run on the list of what happens to them. Other recursion is on
-- lists. A map is an association list, or a hash of the Redis interface; where Go ranges over a
-- map, the results hold for any order of its entries or the entries are taken as given. `MAXLEN ~
-- n` may drop entries from the front only. The rounds of a term's loops follow each other in any
-- order; one does not start inside another, so the mutex of the policy has no part in the model.
--
-- Not modelled: goroutines, tickers, sleeping and shutdown; metrics and logs; YAML and flag
-- parsing; the console's polling, reads and submitter, the stop of its supervisor, the fault
-- proxy, and the drivers of the experiments, which start and stop processes; the CSV files. Reset
-- is a function but not a step: it is run between experiments.
pub mod Prelude
pub mod Domain
pub mod Env
pub mod Config
pub mod Policy
pub mod Broker
pub mod Lease
pub mod System
pub mod Process
pub mod Workload
pub mod Bench
pub mod Console
pub mod Hostclock
pub mod Burner
pub mod Startup
mod Tests
