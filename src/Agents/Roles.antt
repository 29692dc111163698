-- ===== src/Agents/Roles.antt =====
-- mas/agents: the agents that sense the plant and report to the planning agent.
pub mod Base
pub mod Alerts
pub mod Supply
pub mod Inventory
pub mod Demand
pub mod Equipment
pub mod Quality
