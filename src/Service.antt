-- ===== src/Service.antt =====
-- src/service_calculus.rs: admission control by a service curve and a conformal guard.
pub mod Curve
pub mod Calibrator
pub mod Certificate
pub mod Controller
mod Tests
