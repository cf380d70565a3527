-- ===== src/Usecase/Upload.antt =====
-- `UploadUseCase` of internal/usecase/upload_uc.go: the resumable chunked upload.
pub mod Session
pub mod Init
pub mod Assemble
pub mod Attach
pub mod Complete
pub mod Accounts
pub mod Readable
