-- ===== src/Telemetry/Tests.antt =====
-- Runs of `truncate_tool_output` of src/telemetry/mod.rs.
