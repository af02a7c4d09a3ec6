-- ===== src/Jobs.antt =====
-- app/queue/jobs.py: the jobs table. Each operation takes the instants that `_now()` returned and
-- the ids that were drawn for it; a statement is a function of the table.
pub mod Transitions
pub mod Flags
pub mod Deliveries
pub mod Operations
pub mod Lifecycle
