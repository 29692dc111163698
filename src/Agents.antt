-- ===== src/Agents.antt =====
-- mas/agents: the agents.
pub mod Planning
pub mod Roles
