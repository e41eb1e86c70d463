-- ===== src/Sync.antt =====
-- internal/sync: immutable session snapshots and the manifest that points at their heads.
pub mod Model
pub mod Plan
pub mod Paths
pub mod Push
pub mod Pull
pub mod Manifest
