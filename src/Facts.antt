-- ===== src/Facts.antt =====
-- The versioned tables of facts: financial results and corporate actions, what verifies them, and
-- the theses that cite them.
pub mod Versions
pub mod Rows
pub mod Histories
pub mod Upserts
pub mod Assignments
pub mod Versioning
pub mod AsOf
pub mod Financial
pub mod ResultLaws
pub mod Results
pub mod Reload
pub mod Corrections
pub mod Verification
pub mod Manual
pub mod Actions
pub mod CrossSource
pub mod Calendars
pub mod Theses
pub mod Evidence
pub mod Highest
pub mod Succession
pub mod Citations
mod TestData
mod Tests
mod ThesisTests
