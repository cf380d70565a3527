-- ===== src/Domain.antt =====
-- internal/domain: the errors, what the ports keep, and how the use cases run on them.
pub mod Error
pub mod World
pub mod Action
pub mod Ends
pub mod Keeps
