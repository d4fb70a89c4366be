-- ===== src/Router.antt =====
-- The session router, `scripts/ubb_router`.
pub mod Models
pub mod Policy
pub mod Sessions
pub mod Routing
pub mod Permitted
pub mod Trace
pub mod Kept
pub mod Ended
pub mod Closed
mod Holding
pub mod GivenBack
pub mod Calls
mod Samples
