-- ===== src/Edge.antt =====
-- The public edge and its private overlay, `scripts/ubb_edge.py`.
pub mod Names
pub mod Models
pub mod Hostnames
pub mod Config
mod Targets
pub mod Deployable
mod Samples
