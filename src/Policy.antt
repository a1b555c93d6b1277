-- ===== src/Policy.antt =====
-- Candidate policies: investing_agent/services/governed_policy.py.
pub mod Governed
pub mod Folds
mod Tests
