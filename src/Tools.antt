-- ===== src/Tools.antt =====
-- src/tools: the tools that the agent can call.
pub mod Output
pub mod HttpFetch
pub mod UserDefined
pub mod Render
pub mod Toolset
pub mod SqlQuery
