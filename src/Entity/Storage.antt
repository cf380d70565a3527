-- ===== src/Entity/Storage.antt =====
-- internal/entity/file.go: folders, files, versions and blobs.
use strato.Prelude.{ℕ, Bool, false, Option, none, some, not, ◌==◌}
use strato.Entity.Account.{Text}

-- The keys of internal/storage/keys.go: `BlobKey` of a digest, and `ChunkKey` of a session and an
-- index. Storage prints them.
pub data Key : Type 0 where
  blob_key : ℕ → Key
  chunk_key : ℕ → ℕ → Key

pub record Folder : Type 0 where
  pub id : ℕ
  pub owner_id : ℕ
  pub parent_id : Option ℕ
  pub name : Text
  pub created_at : ℕ
  pub updated_at : ℕ
  pub deleted_at : Option ℕ

pub record File : Type 0 where
  pub id : ℕ
  pub owner_id : ℕ
  pub folder_id : Option ℕ
  pub name : Text
  pub mime_type : Text
  pub current_version_id : Option ℕ
  pub locked_by : Option ℕ
  pub locked_at : Option ℕ
  pub is_deleted : Bool
  pub deleted_at : Option ℕ
  pub created_at : ℕ
  pub updated_at : ℕ
  pub size_bytes : ℕ
  pub checksum : ℕ
  pub version_number : ℕ

abbrev other_than : ℕ → Option ℕ → Bool
other_than u none = false
other_than u (some v) = not (v == u)

-- `IsLockedByOther`.
unfoldable pub is_locked_by_other : File → ℕ → Bool
is_locked_by_other f user_id = other_than user_id f.locked_by

pub record Version : Type 0 where
  pub id : ℕ
  pub file_id : ℕ
  pub version_number : ℕ
  pub blob_id : ℕ
  pub size_bytes : ℕ
  pub created_by : ℕ
  pub created_at : ℕ
  pub checksum : ℕ

pub record Blob : Type 0 where
  pub id : ℕ
  pub checksum : ℕ
  pub size_bytes : ℕ
  pub storage_key : Key
  pub wrapped_dek : Text
  pub ref_count : ℕ
  pub created_at : ℕ
