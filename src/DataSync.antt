-- ===== src/DataSync.antt =====
-- pkg/operator/datasync: the secrets and config maps that are synced for the identity providers.
pub mod Validation
pub mod SyncData
pub mod Calls
pub mod Handling
pub mod Sources
pub mod Mounts
pub mod Volumes
pub mod Checked
mod Examples
