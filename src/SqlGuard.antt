-- ===== src/SqlGuard.antt =====
-- src/sql_guard: the safety guard in front of every statement that the model wants to run.
pub mod Mode
pub mod Lexer
pub mod Rules
pub mod Ast
pub mod Visitors
pub mod Classify
pub mod Validate
pub mod Tests
