-- ===== src/Usecase/File.antt =====
-- `FileUseCase` of internal/usecase/file_uc.go.
pub mod Change
pub mod Listing
pub mod Signed
pub mod Content
pub mod Folders
pub mod Accounts
