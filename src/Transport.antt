-- ===== src/Transport.antt =====
-- internal/transport.
pub mod Status
pub mod Messages
pub mod Rpc
pub mod Files
pub mod Accounts
pub mod Paging
pub mod Http
