-- ===== src/Domain.antt =====
-- mas/domain: the simulated plant.
pub mod Inventory
pub mod Demand
pub mod Machines
pub mod Plant
pub mod Environment
