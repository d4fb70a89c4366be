-- ===== src/Monitoring.antt =====
-- Health and alerts, `scripts/ubb_monitoring/engine.py`.
pub mod Alerts
pub mod Storage
pub mod Retention
pub mod Current
pub mod Evaluated
mod Samples
