-- ===== src/React.antt =====
-- execution_engine/agent/react_engine.py: the loop between the model and the tools.
pub mod State
pub mod Calls
pub mod Answer
pub mod Loop
pub mod Effects
pub mod CallEffects
pub mod Answered
pub mod Invariants
pub mod Linked
pub mod Budget
pub mod Fuel
pub mod Run
pub mod Finish
pub mod Start
