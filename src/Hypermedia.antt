-- ===== src/Hypermedia.antt =====
-- src/hypermedia.rs: bounded HTTPS leases and the endpoint of their requests.
pub mod Origin
mod Canonical
pub mod Request
pub mod Tls
pub mod Lease
mod Bound
mod Wire
pub mod Endpoint
mod Gate
mod Serving
mod Tests
