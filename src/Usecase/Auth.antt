-- ===== src/Usecase/Auth.antt =====
-- internal/usecase/auth_uc.go: the refresh-token sessions.
pub mod Token
pub mod Session
pub mod Account
pub mod Login
pub mod Rotation
pub mod Replay
pub mod Admission
