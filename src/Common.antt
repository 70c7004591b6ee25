-- ===== src/Common.antt =====
-- pkg/controllers/common: what the controllers share.
pub mod Conditions
pub mod ConfigMaps
pub mod Oidc
pub mod IngressConfig
pub mod Proxy
mod Examples
