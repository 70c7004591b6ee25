-- ===== src/Generation.antt =====
-- pkg/controllers/externaloidc/generation/kubeapiserver/generate.go: the generation of the
-- kube-apiserver's structured authentication configuration.
pub mod Expr
pub mod Types
pub mod Issuer
pub mod Mappings
pub mod Rules
pub mod Generator
pub mod Emails
pub mod Issuers
pub mod Shapes
pub mod Whole
mod Examples
