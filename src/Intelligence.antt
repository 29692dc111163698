-- ===== src/Intelligence.antt =====
-- mas/intelligence: what stands between the agents and the language model.
pub mod Enrichment
pub mod Router
pub mod Predictive
pub mod Solver
