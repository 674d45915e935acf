-- ===== src/Client.antt =====
-- The pure helpers of crates/proton-drive-rs/src/client.rs: names, paths, batches by volume, parent keys.
pub mod Names
pub mod Paths
pub mod Volumes
pub mod Context
pub mod Hierarchy
pub mod ParentKeys
pub mod Links
