-- ===== src/Transport/Files.antt =====
-- internal/transport/grpc/file_handler.go: a handler takes the fields of its request.
use strato.Prelude.{ℕ, Bool, List, Option, map, ◌/◌}
use strato.Entity.Account.{Text}
use strato.Entity.Storage.{File, Version, Folder}
use strato.Entity.Upload.{UploadSession, UploadStatus}
use strato.Domain.Action.{pure, ◌>>=◌}
use strato.Outside.{Env}
use strato.Middleware.{Context}
use strato.Postgres.Listings.{file_key, version_key}
use strato.Service.Signer.{UrlSigner, Query}
use strato.Usecase.Upload.Init.{init_upload}
use strato.Usecase.Upload.Session
use strato.Usecase.Upload.Complete.{complete}
use strato.Usecase.File.Change
use strato.Usecase.File.Folders
use strato.Usecase.File.Listing
use strato.Usecase.File.Signed.{signed_download_query}
use strato.Transport.Rpc.{
  Rpc, respond, with_identity, with_id, with_optional_id, with_page, ident_and_id,
}
use strato.Transport.Messages.{
  Wire, FileMetadata, FolderMetadata, FileVersion, PageRequest, int32, file_to_proto,
  files_to_proto, folder_to_proto, version_to_proto, page_token,
}

pub record InitUploadResponse : Type 0 where
  pub session_id : Text
  pub chunk_size : ℕ
  pub total_chunks : ℕ
  pub already_exists : Bool

pub record UploadStatusResponse : Type 0 where
  pub session_id : Text
  pub received_chunks : List ℕ
  pub total_chunks : ℕ
  pub status : UploadStatus

pub record FilePage : Type 0 where
  pub files : List FileMetadata
  pub next_page_token : Text

pub record VersionPage : Type 0 where
  pub versions : List FileVersion
  pub next_page_token : Text

pub record FolderPage : Type 0 where
  pub folders : List FolderMetadata
  pub files : List FileMetadata
  pub next_page_token : Text

-- The URL of a download is its file with the query, whose encoding is that of net/url.
pub record DownloadUrl : Type 0 where
  pub file_id : Text
  pub query : Query
  pub expires_in_seconds : ℕ

module _ (env : Env) (wire : Wire) where
  init_response : UploadSession × Bool → InitUploadResponse
  init_response (s, already_exists) = record {
    session_id = wire.uuid_text s.id;
    chunk_size = s.chunk_size;
    total_chunks = int32 s.total_chunks;
    already_exists = already_exists;
  }

  -- `InitUpload`.
  unfoldable pub init_upload_rpc : Context → Text → Text → Text → ℕ → Text → Rpc InitUploadResponse
  unfolding init_response
  init_upload_rpc ctx name folder_id mime_type size checksum = with_identity ctx.identity λ ident.
      respond (
        init_upload env ident name folder_id mime_type size checksum >>= λ r.
        pure (init_response r))

  status_response : UploadSession × List ℕ → UploadStatusResponse
  status_response (s, received) = record {
    session_id = wire.uuid_text s.id;
    received_chunks = map (λ n. int32 n) received;
    total_chunks = int32 s.total_chunks;
    status = s.status;
  }

  -- `GetUploadStatus`.
  unfoldable pub get_upload_status : Context → Text → Rpc UploadStatusResponse
  unfolding status_response
  get_upload_status ctx session_id =
      ident_and_id wire ctx session_id
        λ ident id. respond (Session.status ident id >>= λ r. pure (status_response r))

  -- `CompleteUpload`.
  unfoldable pub complete_upload : Context → Text → Rpc FileMetadata
  complete_upload ctx session_id =
      ident_and_id wire ctx session_id
        λ ident id. respond (complete env ident id >>= λ f. pure (file_to_proto wire f))

  -- `AbortUpload`.
  unfoldable pub abort_upload : Context → Text → Rpc (Unit {0})
  abort_upload ctx session_id =
      ident_and_id wire ctx session_id (λ ident id. respond (Session.abort ident id))

  -- `GetFile`.
  unfoldable pub get_file : Context → Text → Rpc FileMetadata
  get_file ctx file_id =
      ident_and_id wire ctx file_id
        λ ident id. respond (Change.get ident id >>= λ f. pure (file_to_proto wire f))

  abbrev pub file_page : ℕ → List File → FilePage
  file_page limit files = record {
    files = files_to_proto wire files;
    next_page_token = page_token wire file_key limit files;
  }

  -- `ListFiles`.
  unfoldable pub list_files : Context → Text → Bool → Bool → Option PageRequest → Rpc FilePage
  list_files ctx folder_id include_deleted descending page = with_identity ctx.identity λ ident.
      with_page wire page λ cur limit. with_optional_id wire folder_id λ id. respond (
        Listing.list ident id include_deleted descending cur limit >>= λ files.
        pure (file_page limit files))

  -- `SearchFiles`.
  unfoldable pub search_files :
      (Text → Text → Bool) → Context → Text → Text → Option PageRequest → Rpc FilePage
  search_files ilike ctx text mime_type page = with_identity ctx.identity λ ident.
      with_page wire page λ cur limit. respond (
        Listing.search ilike ident text mime_type cur limit >>= λ files.
        pure (file_page limit files))

  -- `MoveFile`.
  unfoldable pub move_file : Context → Text → Text → Rpc FileMetadata
  move_file ctx file_id target = ident_and_id wire ctx file_id λ ident id.
      with_optional_id wire target
        λ to. respond (Change.move ident id to >>= λ f. pure (file_to_proto wire f))

  -- `RenameFile`.
  unfoldable pub rename_file : Context → Text → Text → Rpc FileMetadata
  rename_file ctx file_id new_name =
      ident_and_id wire ctx file_id
        λ ident id. respond (Change.rename ident id new_name >>= λ f. pure (file_to_proto wire f))

  -- `DeleteFile`.
  unfoldable pub delete_file : Context → Text → Rpc (Unit {0})
  delete_file ctx file_id =
      ident_and_id wire ctx file_id (λ ident id. respond (Change.delete ident id))

  -- `RestoreFile`.
  unfoldable pub restore_file : Context → Text → Rpc FileMetadata
  restore_file ctx file_id =
      ident_and_id wire ctx file_id
        λ ident id. respond (Change.restore ident id >>= λ f. pure (file_to_proto wire f))

  -- `GetDownloadURL`, with the signer and its time to live.
  unfoldable pub get_download_url : UrlSigner → ℕ → Context → Text → Rpc DownloadUrl
  get_download_url signer ttl ctx file_id = ident_and_id wire ctx file_id λ ident id. respond (
      signed_download_query signer ttl ident id >>= λ r. pure (record {
        file_id = wire.uuid_text id;
        query = r.0;
        expires_in_seconds = r.1 / 1_000_000_000;
      }))

  version_response : ℕ → List Version → VersionPage
  version_response limit versions = record {
    versions = map (λ v. version_to_proto wire v) versions;
    next_page_token = page_token wire version_key limit versions;
  }

  -- `ListVersions`.
  unfoldable pub list_versions : Context → Text → Option PageRequest → Rpc VersionPage
  unfolding version_response
  list_versions ctx file_id page = ident_and_id wire ctx file_id λ ident id.
      with_page wire page λ cur limit.
        respond
          (Listing.list_versions ident id cur limit >>= λ vs. pure (version_response limit vs))

  -- `RestoreVersion`.
  unfoldable pub restore_version_rpc : Context → Text → Text → Rpc FileMetadata
  restore_version_rpc ctx file_id version_id = ident_and_id wire ctx file_id λ ident id.
      with_id wire version_id λ version.
        respond (Change.restore_version env ident id version >>= λ f. pure (file_to_proto wire f))

  -- `LockFile`.
  unfoldable pub lock_file : Context → Text → Rpc (Unit {0})
  lock_file ctx file_id = ident_and_id wire ctx file_id (λ ident id. respond (Change.lock ident id))

  -- `UnlockFile`.
  unfoldable pub unlock_file : Context → Text → Rpc (Unit {0})
  unlock_file ctx file_id =
      ident_and_id wire ctx file_id (λ ident id. respond (Change.unlock ident id))

  -- `CreateFolder`.
  unfoldable pub create_folder : Context → Text → Text → Rpc FolderMetadata
  create_folder ctx name parent_id = with_identity ctx.identity λ ident.
      with_optional_id wire parent_id λ parent.
        respond (Folders.create_folder env ident name parent >>= λ d. pure (folder_to_proto wire d))

  folder_page : ℕ → List Folder × List File → FolderPage
  folder_page limit (folders, files) = record {
    folders = map (λ d. folder_to_proto wire d) folders;
    files = files_to_proto wire files;
    next_page_token = page_token wire file_key limit files;
  }

  -- `ListFolder`.
  unfoldable pub list_folder : Context → Text → Option PageRequest → Rpc FolderPage
  unfolding folder_page
  list_folder ctx folder_id page = with_identity ctx.identity λ ident.
      with_optional_id wire folder_id λ id. with_page wire page λ cur limit.
        respond (Listing.list_folder ident id cur limit >>= λ r. pure (folder_page limit r))

  -- `DeleteFolder`.
  unfoldable pub delete_folder : Context → Text → Rpc (Unit {0})
  delete_folder ctx folder_id =
      ident_and_id wire ctx folder_id (λ ident id. respond (Folders.delete_folder ident id))
