-- ===== src/Usecase/Access.antt =====
-- `authorizeFile` of internal/usecase/access.go, and the helpers of internal/usecase/file_uc.go
-- that stand on it.
use strato.Prelude.{ℕ, ◌||◌, not, ◌==◌, if◌then◌else◌}
use strato.Entity.Account.{is_admin_role}
use strato.Entity.Access.{Permission, allows, share_active, Identity}
use strato.Entity.Storage.{File, is_locked_by_other}
use strato.Domain.Error.{ok, err, not_found, permission_denied, file_locked}
use strato.Domain.Action.{Action, pure, fail, gets, attempt, fail_if, ◌>>=◌, ◌>>◌}
use strato.Postgres.FolderRepo
use strato.Postgres.FileRepo
use strato.Postgres.ShareRepo

-- What `authorizeFile` does for a caller who is neither the owner nor an admin.
unfoldable pub authorize_grantee : Identity → File → Permission → ℕ → Action File
authorize_grantee ident f need now =
    if f.is_deleted
    then fail not_found
    else (attempt (ShareRepo.find_grant f.id ident.user_id) >>= λ r. elim r [
      | err _ ↦ fail not_found
      | ok grant ↦
          fail_if (not (share_active grant now)) not_found
          >> (fail_if (not (allows grant.permission need)) permission_denied >> pure f)
    ])

-- `authorizeFile`: the caller reads the clock before the call.
unfoldable pub authorize_file : Identity → ℕ → Permission → Action File
authorize_file ident file_id need = gets (λ w. w.clock) >>= λ now.
    attempt (FileRepo.get_by_id file_id) >>= λ r. elim r [
      | err _ ↦ fail not_found
      | ok f ↦
          if f.owner_id == ident.user_id || is_admin_role ident.role
          then pure f
          else authorize_grantee ident f need now
    ]

-- `mutableFile`.
unfoldable pub mutable_file : Identity → ℕ → Permission → Action File
mutable_file ident file_id need = authorize_file ident file_id need >>= λ f.
    fail_if f.is_deleted not_found
    >> (fail_if (is_locked_by_other f ident.user_id) file_locked >> pure f)

-- `ownFolder`.
unfoldable pub own_folder : Identity → ℕ → Action (Unit {0})
own_folder ident folder_id = attempt (FolderRepo.get_by_id folder_id) >>= λ r. elim r [
  | err _ ↦ fail not_found
  | ok d ↦ fail_if (not (d.owner_id == ident.user_id)) not_found
]
