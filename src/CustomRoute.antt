-- ===== src/CustomRoute.antt =====
-- pkg/controllers/customroute: the route of the OAuth server with its custom host and certificate.
pub mod Conditions
pub mod Controller
pub mod Reports
pub mod Ageing
pub mod Operands
pub mod Failures
mod Examples
