-- ===== src/Intake.antt =====
-- core/intake_hold.py: the hold on new work that an updater sets from outside the poller.
pub mod Files
pub mod Hold
pub mod Quiet
mod Examples
