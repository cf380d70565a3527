-- ===== src/Crypto/Stream.antt =====
-- The segmented stream of pkg/crypto/aesgcm.go.
pub mod Frame
pub mod Writer
pub mod Reader
pub mod Emitted
pub mod Reading
pub mod Written
pub mod Decoded
pub mod Truncated
pub mod Size
