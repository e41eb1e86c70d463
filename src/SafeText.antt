-- ===== src/SafeText.antt =====
-- internal/safetext/text.go: bounded metadata without terminal or control injection. A text is the
-- list of its code points; `ToValidUTF8`, which drops the bytes that encode none, is the identity
-- on it. The Unicode tables are package unicode's.
mod Classes
mod Strip
mod Write
pub mod Clean
pub mod Kept
unfoldable pub use Classes.*
unfoldable pub use Strip.*
unfoldable pub use Write.*
