-- ===== src/Poller.antt =====
-- core/poller.py: which issues a poll hands out, and what it remembers of them.
pub mod Events
pub mod Issue
pub mod Book
pub mod Searches
pub mod Order
pub mod Poll
pub mod Trust
pub mod Dispatch
pub mod Labels
pub mod Startable
pub mod Fresh
pub mod Candidates
pub mod Awaits
pub mod Next
pub mod Offered
pub mod Kept
pub mod HandedOut
mod Examples
