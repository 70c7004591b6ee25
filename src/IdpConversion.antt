-- ===== src/IdpConversion.antt =====
-- pkg/controllers/configobservation/oauth/idp_conversions.go: from the identity providers of the
-- OAuth configuration to those of the OAuth server. Types has the data and the state that the
-- conversion threads, Discovery and PasswordGrant talk to an OpenID provider, and Convert has the
-- providers and the loop over them.
pub mod Types
pub mod Providers
pub mod Discovery
pub mod PasswordGrant
pub mod Convert
pub mod Mounts
pub mod Answers
mod Tally
mod Examples
