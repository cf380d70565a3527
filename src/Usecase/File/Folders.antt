-- ===== src/Usecase/File/Folders.antt =====
-- The folders of internal/usecase/file_uc.go: `CreateFolder` and `DeleteFolder`.
use strato.Prelude.{ℕ, Option, none, some}
use strato.Entity.Account.{Text}
use strato.Entity.Access.{Identity}
use strato.Entity.Storage.{Folder}
use strato.Domain.Error.{invalid_argument}
use strato.Domain.Action.{Action, pure, lift, fail_if, ◌>>=◌, ◌>>◌}
use strato.Outside.{Env, new_id}
use strato.Postgres.FolderRepo
use strato.Usecase.Names.{validate_name}
use strato.Usecase.Access.{own_folder}

own_parent : Identity → Option ℕ → Action (Unit {0})
own_parent ident none = pure tt
own_parent ident (some id) = own_folder ident id

-- `CreateFolder`.
unfoldable pub create_folder : Env → Identity → Text → Option ℕ → Action Folder
unfolding own_parent
create_folder env ident raw_name parent_id = lift (validate_name raw_name) >>= λ name.
    own_parent ident parent_id
    >> (new_id env >>= λ id.
        FolderRepo.create (record {
          id = id;
          owner_id = ident.user_id;
          parent_id = parent_id;
          name = name;
          created_at = 0;
          updated_at = 0;
          deleted_at = none;
        })
        >> FolderRepo.get_by_id id)

-- `DeleteFolder`.
unfoldable pub delete_folder : Identity → ℕ → Action (Unit {0})
delete_folder ident folder_id =
    own_folder ident folder_id
    >> (FolderRepo.has_children folder_id >>= λ has_children.
        fail_if has_children invalid_argument >> FolderRepo.soft_delete folder_id)
