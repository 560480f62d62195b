-- ===== src/Memory.antt =====
-- src/memory/mod.rs: the slab heap. (src/memory/relativistic.rs is modelled in Relativistic.)
pub mod Mask
pub mod Page
pub mod Slot
pub mod Return
pub mod Class
pub mod Fresh
pub mod Heap
pub mod Counted
pub mod Token
mod Tests
