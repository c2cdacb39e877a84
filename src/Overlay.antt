-- ===== src/Overlay.antt =====
-- internal/overlayfs: the layered file system and its negative cache.
pub mod Paths
pub mod Layers
pub mod Shard
pub mod Cache
pub mod Resolve
pub mod Dir
pub mod Info
pub mod New
pub mod Limits
pub mod Bounds
mod Tests
