-- ===== src/Encoding.antt =====
-- What the source uses of Go's encoding/base64, strconv, fmt and strings, on texts as lists of bytes.
pub mod Base64
pub mod Decimal
pub mod Split
pub mod Space
pub mod Scan
