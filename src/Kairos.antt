-- ===== src/Kairos.antt =====
-- src/kairos.rs: the machine topology and what is planned on it.
pub mod Topology
pub mod Reply
pub mod Decoded
mod Validated
pub mod Iterate
pub mod Negotiation
mod Granted
pub mod Suited
pub mod Affinity
pub mod Partition
pub mod Tiling
mod Tests
mod Boot
