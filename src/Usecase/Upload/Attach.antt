-- ===== src/Usecase/Upload/Attach.antt =====
-- `attachVersion` of internal/usecase/upload_uc.go.
use strato.Prelude.{ℕ, false, none, if◌then◌else◌}
use strato.Entity.Storage.{File, Version, Blob, is_locked_by_other}
use strato.Entity.Upload.{UploadSession}
use strato.Domain.Error.{ok, err, file_locked, is_not_found}
use strato.Domain.Action.{Action, pure, fail, attempt, fail_if, within_tx, ◌>>=◌, ◌>>◌}
use strato.Outside.{Env, new_id}
use strato.Postgres.QuotaRepo
use strato.Postgres.QuotaRepo.{charge}
use strato.Postgres.FileRepo
use strato.Postgres.VersionRepo
use strato.Postgres.BlobRepo

-- The file row that `attachVersion` creates.
abbrev pub new_file : ℕ → UploadSession → File
new_file id s = record {
  id = id;
  owner_id = s.user_id;
  folder_id = s.folder_id;
  name = s.name;
  mime_type = s.mime_type;
  current_version_id = none;
  locked_by = none;
  locked_at = none;
  is_deleted = false;
  deleted_at = none;
  created_at = 0;
  updated_at = 0;
  size_bytes = 0;
  checksum = 0;
  version_number = 0;
}

-- The switch on the lookup by name: the live file of that name, or a new one.
unfoldable pub target_file : Env → UploadSession → Action File
target_file env s = attempt (FileRepo.get_by_name s.user_id s.folder_id s.name) >>= λ r. elim r [
  | ok f ↦ fail_if (is_locked_by_other f s.user_id) file_locked >> pure f
  | err e ↦
      if is_not_found e
      then (new_id env >>= λ id. let f = new_file id s in FileRepo.create f >> pure f)
      else fail e
]

-- A version of a file for a blob, with the count of references, the current version and the usage
-- of the owner: the statements that `attachVersion` and `RestoreVersion` share.
unfoldable pub append_version : Version → ℕ → Action (Unit {0})
append_version v owner_id = VersionRepo.create v >>= λ _.
    BlobRepo.increment_ref v.blob_id
    >> (FileRepo.set_current_version v.file_id v.id
        >> QuotaRepo.add_usage owner_id (charge v.size_bytes))

abbrev pub new_version : ℕ → ℕ → ℕ → ℕ → ℕ → Version
new_version id file_id blob_id size created_by = record {
  id = id;
  file_id = file_id;
  version_number = 0;
  blob_id = blob_id;
  size_bytes = size;
  created_by = created_by;
  created_at = 0;
  checksum = 0;
}

-- `attachVersion`.
unfoldable pub attach_version : Env → UploadSession → Blob → Action File
attach_version env s b = within_tx (
    target_file env s >>= λ f. new_id env >>= λ id.
    append_version (new_version id f.id b.id s.size_bytes s.user_id) s.user_id >> pure f)
