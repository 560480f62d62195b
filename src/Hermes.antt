-- ===== src/Hermes.antt =====
-- src/hermes_manifold.rs: the phase manifold of the Hermes device.
pub mod Phase
pub mod Feature
pub mod Evidence
pub mod Manifold
pub mod Lattice
pub mod Online
pub mod Flags
mod Tests
