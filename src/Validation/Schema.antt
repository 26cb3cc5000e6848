-- ===== src/Validation/Schema.antt =====
-- execution_engine/agent/tool_schema_rules.py: the validation of tool arguments against a schema.
pub mod Rules
pub mod Visit
pub mod Verdict
pub mod Typing
pub mod Candidates
pub mod Shapes
pub mod Checks
pub mod Contents
pub mod Soundness
pub mod Calm
pub mod Unraised
pub mod Exact
