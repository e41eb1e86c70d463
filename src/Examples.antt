-- ===== src/Examples.antt =====
-- Concrete inputs at which the theorems on internal/ apply.
mod Workspace
mod Text
mod Preflight
mod Sync
mod Pull
mod Daemon
mod Backend
mod Toy
mod Keyring
mod Account
mod Storage
