-- ===== src/Protocol.antt =====
-- mas/protocol: the Contract Net session and the comparison of proposals.
pub mod Actions
pub mod Value
pub mod Session
pub mod Comparison
pub mod Sra
