-- ===== src/Network.antt =====
-- The network's configuration and its hardening checks, `scripts/ubb_network.py` and
-- `scripts/ubb_network_hardening.py`.
pub mod Inventory
pub mod Config
pub mod Records
pub mod Graph
pub mod Outcome
pub mod Acyclic
mod Samples
