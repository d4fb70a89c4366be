-- ===== src/Ftn.antt =====
-- FidoNet, `scripts/ubb_ftn.py`.
pub mod Address
pub mod Addresses
pub mod Config
pub mod Adapters
mod Samples
