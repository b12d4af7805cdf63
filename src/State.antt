-- ===== src/State.antt =====
-- core/state.py: the SQLite state database.
pub mod Rows
pub mod Locks
pub mod Sessions
pub mod Pending
pub mod Sweep
pub mod Atomic
pub mod Parked
pub mod Rules
pub mod Facts
pub mod Health
pub mod Triples
pub mod Lifecycle
pub mod WellFormed
pub mod Answers
mod Examples
