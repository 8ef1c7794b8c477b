-- ===== src/Process.antt =====
-- The processes of internal/scheduler, internal/recovery and internal/worker, which reach the store
-- through the methods of internal/broker.
pub mod World
pub mod Calls
pub mod Ingest
pub mod Settled
pub mod Acked
pub mod Finish
pub mod Worker
pub mod Attempts
pub mod Handover
pub mod Lost
pub mod Twice
pub mod Serve
pub mod Ousted
pub mod Idle
pub mod Deposed
pub mod Submit
pub mod Order
pub mod Precheck
pub mod Reclaim
pub mod Claim
pub mod Pass
pub mod Engine
pub mod Slot
pub mod Waiting
pub mod Reads
pub mod Shown
pub mod Replay
pub mod Flushed
pub mod Replayed
