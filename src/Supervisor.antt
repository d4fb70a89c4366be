-- ===== src/Supervisor.antt =====
-- The lifecycle supervisor, `scripts/ubb_supervisor/`. Each operation acts on the record of one
-- service under that service's lock; `Cell` is what it can read and write there.
pub mod Lifecycle
pub mod Instance
pub mod Cell
pub mod Run
pub mod Methods
pub mod Scheduler
pub mod Maintenance
pub mod Due
pub mod Waiting
pub mod Scheduled
mod Timetable
mod Patience
pub mod Local
pub mod Invariants
pub mod Trace
pub mod Sessions
pub mod Calls
pub mod Running
pub mod Reconciling
pub mod Abandoned
pub mod Acquired
pub mod Storing
pub mod Fake
mod Opened
mod Samples
