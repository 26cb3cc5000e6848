-- ===== src/Agent/Skills.antt =====
-- execution_engine/agent/skill_loading.py: skill loading and its two budgets.
pub mod Loading
pub mod Budget
pub mod Calls
