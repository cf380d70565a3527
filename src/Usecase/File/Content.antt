-- ===== src/Usecase/File/Content.antt =====
-- The downloads of internal/usecase/file_uc.go: `OpenDownload` and `OpenFileContent`.
use strato.Prelude.{ℕ, none, some, Option}
use strato.Crypto.Cipher.{Bytes}
use strato.Crypto.KeyWrap.{Wrapped, unwrap_key}
use strato.Crypto.Stream.Frame.{default_segment_size}
use strato.Crypto.Stream.Reader.{Reader, ReadError, new_stream_reader}
use strato.Entity.Access.{Identity, viewer}
use strato.Entity.Storage.{File, Blob}
use strato.Domain.Error.{Result, ok, err, not_found, infra}
use strato.Domain.World.{file_downloaded}
use strato.Domain.Action.{Action, pure, fail, lift, fail_if, ◌>>=◌, ◌>>◌}
use strato.Outside.{Env}
use strato.Outside
use strato.Postgres.VersionRepo
use strato.Postgres.BlobRepo
use strato.Usecase.Access.{authorize_file}
use strato.Usecase.Audit.{audit}

unwrapped : Wrapped → Result Bytes
unwrapped (Wrapped.ok dek) = ok dek
unwrapped (Wrapped.err _) = err infra

opened : Option Reader × Option ReadError → Result Reader
opened (some r, _) = ok r
opened (none, _) = err infra

-- The decrypting reader of a blob.
unfoldable pub open_blob : Env → Blob → Action Reader
unfolding unwrapped opened
open_blob env blob = lift (unwrapped (unwrap_key env.aead env.kek blob.wrapped_dek)) >>= λ dek.
    Outside.get blob.storage_key >>= λ object.
    lift (opened (new_stream_reader object dek default_segment_size))

-- `OpenFileContent`: a decrypting reader of the current version.
unfoldable pub open_file_content : Env → File → Action Reader
unfolding open_blob
open_file_content env f = elim f.current_version_id [
  | none ↦ fail not_found
  | some version_id ↦ VersionRepo.get_by_id version_id >>= λ version.
      BlobRepo.get_by_id version.blob_id >>= open_blob env
]

-- `OpenDownload`.
unfoldable pub open_download : Env → Identity → ℕ → Action (Reader × File)
open_download env ident file_id = authorize_file ident file_id viewer >>= λ f.
    fail_if f.is_deleted not_found
    >> (open_file_content env f >>= λ reader.
        audit (some ident.user_id) file_downloaded f.id >> pure (reader, f))
