-- ===== src/Tests.antt =====
-- The theorems at concrete inputs, with floats in fixed point.
mod Broker
mod Domain
mod Machines
mod Plant
mod Planning
mod Sra
mod Router
mod Roles
