-- ===== src/Usecase.antt =====
-- The use cases of internal/usecase.
pub mod Names
pub mod Share
pub mod Audit
pub mod Upload
pub mod Access
pub mod File
pub mod Authorized
pub mod Auth
