-- ===== src/Claims.antt =====
-- core/claims.py: claims that name the machine, as comments on a GitHub issue that several machines
-- read.
pub mod Records
pub mod Reading
pub mod Acquire
pub mod Kept
pub mod Replaced
pub mod Standing
pub mod Takeover
pub mod Foreign
pub mod Keeper
pub mod Refresh
pub mod Fresh
pub mod Shown
pub mod Ours
pub mod Won
pub mod Final
mod Examples
pub mod Exclusive
