-- ===== src/Recommend.antt =====
-- The deterministic recommendation engine: current_recommendations.py of
-- investing_agent/services, with the queries that it makes.
pub mod Types
pub mod Policy
pub mod Generate
pub mod Choice
pub mod Coverage
pub mod Runs
mod Tests
