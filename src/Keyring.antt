-- ===== src/Keyring.antt =====
-- internal/keyring: the per-account object that holds the root key wrapped for each enrolled device
-- and under the recovery code, in signed generations.
pub mod Model
pub mod Crypto
pub mod Message
pub mod Verify
pub mod Recovery
pub mod Generations
pub mod Wraps
pub mod Unwrap
pub mod Enrol
pub mod Rollover
pub mod New
pub mod Parse
pub mod Store
