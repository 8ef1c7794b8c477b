-- ===== src/Lease.antt =====
-- internal/lease: the leader lease and the epochs that it hands out.
pub mod Scripts
pub mod Options
pub mod Client
pub mod Held
pub mod Campaign
pub mod Terms
