-- ===== src/Orphans.antt =====
-- core/orphans.py: the runs whose process died without settling them.
pub mod Owner
pub mod World
pub mod Reap
pub mod Locks
pub mod Kept
pub mod Rows
pub mod Spared
pub mod Free
pub mod Settles
mod Examples
