-- ===== src/Preflight.antt =====
-- internal/preflight: the report on the environment that a session resumes in, and the policy that
-- decides on a launch.
pub mod ExitCode
pub mod Model
pub mod Observed
pub mod Normalize
pub mod Aggregate
pub mod Report
pub mod Authorize
pub mod Checks
