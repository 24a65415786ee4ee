-- ===== src/Jobs.antt =====
-- src/jobs/mod.rs, its drivers and the table ask._jobs of sql/bootstrap.sql.
pub mod Table
pub mod Queue
pub mod Drain
pub mod Worker
pub mod Tests
