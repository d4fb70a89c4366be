-- ===== src/Admin.antt =====
-- The administration's sign-in, `scripts/ubb_admin/auth.py`.
pub mod Throttle
pub mod Limits
pub mod Accounts
pub mod SignIn
pub mod Actions
mod Samples
