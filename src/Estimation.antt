-- ===== src/Estimation.antt =====
-- Earnings estimates: investing_agent/services/estimation/deterministic.py.
pub mod Types
pub mod Deterministic
pub mod Derived
pub mod Bands
pub mod RevenueBand
pub mod Confidence
mod Tests
