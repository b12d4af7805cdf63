-- ===== src/Stuck.antt =====
-- core/stuck.py: a run that goes in circles, and what kind of failure a CI round shows.
pub mod Calls
pub mod Loop
pub mod Tail
pub mod Alike
pub mod Circles
pub mod Failures
mod Examples
