-- ===== src/Agents/Planning.antt =====
-- mas/agents/planning_agent.py and mas/agents/planning_sub: the planning agent.
pub mod Evaluate
pub mod Rank
pub mod Alerts
pub mod Round
