-- ===== src/System.antt =====
-- Schedulers, workers, producers and the recovery loop together, as interleavings of the atomic
-- steps that they make on the store.
pub mod Steps
pub mod Terms
pub mod Fencing
pub mod Books
pub mod Balance
pub mod Once
pub mod Grants
