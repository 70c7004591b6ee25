-- ===== src/Readiness.antt =====
-- pkg/controllers/readiness: the controller that asks each kube-apiserver for the well-known OAuth
-- metadata. Degradation is error.go, Override is unsupported_override.go, and Addresses, Endpoint and
-- WellKnown are wellknown_ready_controller.go.
pub mod Degradation
pub mod Override
pub mod Addresses
pub mod Endpoint
pub mod WellKnown
mod Examples
