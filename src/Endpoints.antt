-- ===== src/Endpoints.antt =====
-- The checks of the OAuth server's endpoints: Lists and Tls are
-- pkg/controllers/oauthendpoints/oauth_endpoints_controller.go, and Accessible is
-- pkg/libs/endpointaccessible/endpoint_accessible_controller.go.
pub mod Lists
pub mod Tls
pub mod Accessible
mod Examples
