-- ===== src/Payload.antt =====
-- pkg/controllers/payload/payload_config_controller.go: the session secret and the configuration of
-- the OAuth server. Random has the random texts, Session the secret, Config the configuration, and
-- Controller the sync.
pub mod Random
pub mod Session
pub mod Config
pub mod Controller
pub mod Allowed
mod Examples
