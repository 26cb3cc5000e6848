-- ===== src/Validation/Remediation.antt =====
-- execution_engine/agent/tool_validation.py: the checks of a call before it is sent for approval.
pub mod Targets
pub mod Preconditions
pub mod Preapproval
pub mod Chosen
pub mod Holds
pub mod Supported
