-- ===== src/Alerts.antt =====
-- core/dispatch_health.py: when the relay tells its operator that nothing dispatches.
pub mod Dispatch
pub mod Backed
pub mod Silent
mod Examples
