-- ===== src/Usecase/Upload/Complete.antt =====
-- `Complete` of internal/usecase/upload_uc.go.
use strato.Prelude.{ℕ, not, some, if◌then◌else◌}
use strato.Entity.Access.{Identity}
use strato.Entity.Storage.{File, Blob}
use strato.Entity.Upload.{UploadSession, completed}
use strato.Domain.Error.{ok, err, already_exists, is_not_found}
use strato.Domain.World.{file_uploaded}
use strato.Domain.Action.{Action, pure, fail, attempt, lift, fail_if, ◌>>=◌, ◌>>◌}
use strato.Outside.{Env, try_lock, unlock}
use strato.Postgres.BlobRepo
use strato.Postgres.FileRepo
use strato.Postgres.UploadRepo
use strato.Usecase.Audit.{audit}
use strato.Usecase.Upload.Session.{active_session, cleanup_staging}
use strato.Usecase.Upload.Assemble.{assemble_blob}
use strato.Usecase.Upload.Attach.{attach_version}

-- The blob of the declared digest, assembled from the chunks if there is none.
unfoldable pub content_blob : Env → UploadSession → Action Blob
content_blob env s = attempt (BlobRepo.get_by_checksum s.checksum) >>= λ r. elim r [
  | ok b ↦ pure b
  | err e ↦ if is_not_found e then assemble_blob env s else fail e
]

-- What `Complete` does while it holds the lock.
unfoldable pub complete_locked : Env → Identity → UploadSession → Action File
complete_locked env ident s = content_blob env s >>= λ b. attach_version env s b >>= λ f.
    UploadRepo.update_status s.id completed
    >> (cleanup_staging s
        >> (audit (some ident.user_id) file_uploaded f.id >> FileRepo.get_by_id f.id))

-- `defer release()`.
unfoldable pub releasing {ℓ} : {A : Type ℓ} → ℕ → Action A → Action A
releasing key m = attempt m >>= λ r. unlock key >> lift r

-- `Complete`. The lock's key is the session's id; its ten minutes are not modelled.
unfoldable pub complete : Env → Identity → ℕ → Action File
complete env ident session_id = active_session ident session_id >>= λ s. try_lock s.id >>= λ free.
    fail_if (not free) already_exists >> releasing s.id (complete_locked env ident s)
