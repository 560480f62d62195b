-- ===== src/Crest.antt =====
-- src/quantum_crest.rs: the page that the kernel and the desktop share.
pub mod Root
pub mod Part
pub mod Snapshot
pub mod Command
pub mod Reply
pub mod Mailbox
pub mod Page
pub mod Channel
pub mod Interleaving
pub mod Exclusion
mod Tests
