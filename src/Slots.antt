-- ===== src/Slots.antt =====
-- core/slots.py: how many agent runs one node has going at once, over asyncio's Semaphore.
pub mod Semaphore
pub mod Agent
pub mod Limit
mod Examples
