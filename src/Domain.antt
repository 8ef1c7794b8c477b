-- ===== src/Domain.antt =====
-- internal/domain: tasks, results and dead letters.
pub mod Time
pub mod Task
pub mod Result
pub mod Validation
