-- ===== src/Entity/Upload.antt =====
-- internal/entity/upload.go: upload sessions and the receipts of their chunks.
use strato.Prelude.{
  ℕ, suc, ◌+◌, ◌-◌, ◌/◌, ◌%◌, Bool, true, false, ◌&&◌, Option, ltb, ◌==◌, if◌then◌else◌,
}
use strato.Entity.Account.{Text}
use strato.Entity.Storage.{Key}

pub data UploadStatus : Type 0 where
  pending completed aborted expired : UploadStatus

abbrev pub is_pending : UploadStatus → Bool
is_pending pending = true
is_pending _ = false

pub record UploadSession : Type 0 where
  pub id : ℕ
  pub user_id : ℕ
  pub folder_id : Option ℕ
  pub name : Text
  pub mime_type : Text
  pub size_bytes : ℕ
  pub checksum : ℕ
  pub chunk_size : ℕ
  pub total_chunks : ℕ
  pub status : UploadStatus
  pub created_at : ℕ
  pub expires_at : ℕ

-- `UploadSession.IsActive`.
unfoldable pub upload_active : UploadSession → ℕ → Bool
upload_active u now = is_pending u.status && ltb now u.expires_at

-- `ExpectedChunkSize`. `index == TotalChunks-1` is `index + 1 == TotalChunks` on ints that are not
-- negative.
unfoldable pub expected_chunk_size : UploadSession → ℕ → ℕ
expected_chunk_size u index =
    let rem = u.size_bytes % u.chunk_size in
    if suc index == u.total_chunks then (if rem == 0 then u.chunk_size else rem) else u.chunk_size

pub record Chunk : Type 0 where
  pub session_id : ℕ
  pub index : ℕ
  pub size_bytes : ℕ
  pub checksum : ℕ
  pub storage_key : Key
  pub uploaded_at : ℕ

-- The count of chunks that `InitUpload` computes.
unfoldable pub chunk_count : ℕ → ℕ → ℕ
chunk_count size chunk_size = (size + chunk_size - 1) / chunk_size
