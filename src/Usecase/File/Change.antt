-- ===== src/Usecase/File/Change.antt =====
-- What changes a file in internal/usecase/file_uc.go: its name, place, trash, version and lock.
use strato.Prelude.{ℕ, not, ◌||◌, Option, none, some, ◌==◌, if◌then◌else◌}
use strato.Entity.Account.{Text, is_admin_role}
use strato.Entity.Access.{viewer, editor, owner, Identity}
use strato.Entity.Storage.{File, Version}
use strato.Domain.Error.{ok, err, not_found, file_locked}
use strato.Domain.World.{file_deleted, file_restored, version_restored, file_locked, file_unlocked}
use strato.Domain.Action.{Action, pure, fail, lift, attempt, fail_if, within_tx, ◌>>=◌, ◌>>◌}
use strato.Outside.{Env, new_id}
use strato.Postgres.FolderRepo
use strato.Postgres.FileRepo
use strato.Postgres.VersionRepo
use strato.Usecase.Names.{validate_name}
use strato.Usecase.Access.{authorize_file, mutable_file}
use strato.Usecase.Audit.{audit}
use strato.Usecase.Upload.Attach.{append_version, new_version}

-- `Get`.
unfoldable pub get : Identity → ℕ → Action File
get ident file_id = authorize_file ident file_id viewer

-- `Rename`.
unfoldable pub rename : Identity → ℕ → Text → Action File
rename ident file_id raw_name = lift (validate_name raw_name) >>= λ new_name.
    mutable_file ident file_id editor >>= λ f.
    FileRepo.rename f.id new_name >> FileRepo.get_by_id f.id

target_folder : File → Option ℕ → Action (Unit {0})
target_folder f none = pure tt
target_folder f (some id) = attempt (FolderRepo.get_by_id id) >>= λ r. elim r [
  | err _ ↦ fail not_found
  | ok d ↦ fail_if (not (d.owner_id == f.owner_id)) not_found
]

-- `Move`.
unfoldable pub move : Identity → ℕ → Option ℕ → Action File
unfolding target_folder
move ident file_id target = mutable_file ident file_id editor >>= λ f.
    target_folder f target >> (FileRepo.move f.id target >> FileRepo.get_by_id f.id)

-- `Delete`.
unfoldable pub delete : Identity → ℕ → Action (Unit {0})
delete ident file_id = mutable_file ident file_id owner >>= λ f.
    FileRepo.soft_delete f.id >> audit (some ident.user_id) file_deleted f.id

-- `Restore`: the two error branches differ in their text only.
unfoldable pub restore : Identity → ℕ → Action File
restore ident file_id = authorize_file ident file_id owner >>= λ f.
    if f.is_deleted
    then FileRepo.restore f.id
      >> (audit (some ident.user_id) file_restored f.id >> FileRepo.get_by_id f.id)
    else pure f

-- The version to restore, which is one of the file.
unfoldable pub old_version : File → ℕ → Action Version
old_version f version_id = attempt (VersionRepo.get_by_id version_id) >>= λ r. elim r [
  | err _ ↦ fail not_found
  | ok v ↦ if v.file_id == f.id then pure v else fail not_found
]

-- `RestoreVersion`.
unfoldable pub restore_version : Env → Identity → ℕ → ℕ → Action File
restore_version env ident file_id version_id = mutable_file ident file_id editor >>= λ f.
    old_version f version_id >>= λ old. new_id env >>= λ id.
    within_tx
      (append_version (new_version id f.id old.blob_id old.size_bytes ident.user_id) f.owner_id)
    >> (audit (some ident.user_id) version_restored f.id >> FileRepo.get_by_id f.id)

-- `Lock`.
unfoldable pub lock : Identity → ℕ → Action (Unit {0})
lock ident file_id = authorize_file ident file_id editor >>= λ f. elim f.locked_by [
  | some holder ↦ if holder == ident.user_id then pure tt else fail file_locked
  | none ↦
      FileRepo.set_lock f.id (some ident.user_id) >> audit (some ident.user_id) file_locked f.id
]

-- `Unlock`.
unfoldable pub unlock : Identity → ℕ → Action (Unit {0})
unlock ident file_id = authorize_file ident file_id editor >>= λ f. elim f.locked_by [
  | none ↦ pure tt
  | some holder ↦
      if holder == ident.user_id || (f.owner_id == ident.user_id || is_admin_role ident.role)
      then FileRepo.set_lock f.id none >> audit (some ident.user_id) file_unlocked f.id
      else fail file_locked
]
