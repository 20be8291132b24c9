-- ===== src/Orchestrator.antt =====
-- The orchestrator: the dependency resolver, the stage analyzer and planner of orchestrator/stage_selector.cpp, and the
-- kill switch.
pub mod Dependencies
pub mod Cycles
pub mod Search
pub mod Descent
pub mod Decision
pub mod KillSwitch
mod Examples
mod Scenarios
pub mod Analyzer
pub mod Planner
