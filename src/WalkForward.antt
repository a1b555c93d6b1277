-- ===== src/WalkForward.antt =====
-- Walk-forward simulation: the modules of investing_agent/services/walkforward.
pub mod Decisions
pub mod Actions
pub mod Frozen
pub mod Returns
pub mod Prices
pub mod Outcomes
pub mod Scores
pub mod Horizons
pub mod Drawdown
pub mod Aggregation
pub mod Groups
pub mod Report
pub mod Comparator
mod Tests
mod ReportTests
