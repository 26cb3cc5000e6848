-- ===== src/Validation.antt =====
-- execution_engine/agent/tool_schema_rules.py and tool_validation.py: the checks before a tool call.
pub mod Json
pub mod Sizes
pub mod Schema
pub mod Remediation
