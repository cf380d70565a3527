-- ===== src/Domain/World.antt =====
-- What the ports of internal/domain keep: the tables of the database (migrations/*.up.sql), the
-- object store, the locks, the two clocks, and what the outside will do next.
use strato.Prelude.{ℕ, Bool, List, Option}
use strato.Entity.Account.{Text, User, Session, Quota}
use strato.Entity.Access.{Share}
use strato.Entity.Storage.{Key, Folder, File, Version, Blob}
use strato.Entity.Upload.{UploadSession, Chunk}

-- The actions of internal/entity/audit.go.
pub data AuditAction : Type 0 where
  user_registered user_login user_login_failed user_logout token_reuse_detected file_uploaded
        file_downloaded file_deleted file_restored file_locked file_unlocked version_restored
        share_created share_revoked share_accessed :
      AuditAction

-- `AuditEntry` without the request's metadata.
pub record AuditEntry : Type 0 where
  pub user_id : Option ℕ
  pub action : AuditAction
  pub resource_id : ℕ

-- A table is the list of its rows, in the order of their insertion.
pub record Db : Type 0 where
  pub users : List User
  pub sessions : List Session
  pub quotas : List Quota
  pub folders : List Folder
  pub blobs : List Blob
  pub files : List File
  pub versions : List Version
  pub uploads : List UploadSession
  pub chunks : List Chunk
  pub shares : List Share
  pub audit : List AuditEntry

-- `faults` says of each later call of the database, the object store or Redis whether it fails
-- before it has any effect (where the list ends, none fails). `drawn` counts the random values
-- drawn so far. `clock` is `Clock.Now` and `db_clock` the database's now().
pub record World : Type 0 where
  pub db : Db
  pub objects : List (Key × Text)
  pub locks : List ℕ
  pub faults : List Bool
  pub drawn : ℕ
  pub clock : ℕ
  pub db_clock : ℕ
