-- ===== src/Fifo.antt =====
-- The FIFO lot-matching engine, investing_agent/services/reconstruction/fifo.py.
pub mod Types
pub mod Steps
pub mod Run
pub mod Timeline
pub mod Queues
pub mod Loop
pub mod Totals
pub mod Sell
pub mod Oversell
pub mod Scaling
pub mod Replays
pub mod Order
mod Tests
