-- ===== src/Workspace.antt =====
-- internal/workspace: the observation of a local workspace and its comparison with what a session
-- recorded.
pub mod Model
pub mod Provenance
pub mod NewCheck
pub mod WorkingTree
pub mod Compare
