-- ===== src/Schema.antt =====
-- src/schema: the names of the schemas, their search path, the two renderings, and the summary with
-- its cache.
pub mod Names
pub mod Render
pub mod Summary
pub mod Tests
