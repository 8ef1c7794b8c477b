-- ===== src/Policy.antt =====
-- internal/scheduler/policy and the four scheduling policies.
pub mod Key
pub mod Member
pub mod Order
pub mod Fifo
pub mod Priority
pub mod Edf
pub mod Ranks
pub mod Wfq
pub mod Interface
pub mod Choose
pub mod Queue
