-- ===== src/Service.antt =====
-- internal/service.
pub mod Gc
pub mod Signer
