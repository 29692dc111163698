-- ===== src/Domain/Plant.antt =====
-- mas/domain/environment.py and mas/domain/business_events.py: the factory.
pub mod Shift
pub mod Stock
pub mod Events
pub mod Factory
pub mod Snapshot
pub mod Cycle
pub mod Outcome
