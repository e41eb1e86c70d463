-- ===== src/Daemon.antt =====
-- internal/daemon: the resident process that pushes after session changes, pulls on a schedule and
-- surfaces pending device approvals.
pub mod Model
pub mod Settings
pub mod Backoff
pub mod Actions
pub mod Approvals
pub mod Run
