-- ===== src/Reconstruction.antt =====
-- Portfolio reconstruction around the FIFO engine: the modules replay.py, service.py and
-- reconciliation.py of investing_agent/services/reconstruction.
pub mod Trades
pub mod Cash
pub mod Snapshot
pub mod Positions
pub mod Store
pub mod PointInTime
pub mod Reconcile
pub mod Reports
mod Tests
