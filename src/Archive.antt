-- ===== src/Archive.antt =====
-- The preservation archive, `scripts/ubb_archive.py`.
pub mod Models
pub mod Filenames
pub mod SafeNames
pub mod Store
pub mod Preserve
pub mod Integrity
pub mod Preserved
pub mod Sound
pub mod Grown
pub mod Export
pub mod Exported
pub mod Derive
pub mod Derived
mod Samples
