-- ===== src/Planner.antt =====
-- src/planner: the preview of a query.
pub mod Strip
pub mod Analysis
pub mod Preview
pub mod Tests
