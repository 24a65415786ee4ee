-- ===== src/Agent.antt =====
-- src/agent: the loop that asks the provider, calls the tools it wants, and asks again.
pub mod Dispatch
pub mod Run
pub mod Stream
pub mod Tests
