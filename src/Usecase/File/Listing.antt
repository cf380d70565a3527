-- ===== src/Usecase/File/Listing.antt =====
-- The listings of internal/usecase/file_uc.go: `List`, `Search`, `ListVersions` and `ListFolder`.
use strato.Prelude.{ℕ, Bool, false, ◌||◌, List, Option, none, some, ltb, length}
use strato.Entity.Account.{Text}
use strato.Entity.Access.{Identity}
use strato.Entity.Storage.{File, Version, Folder}
use strato.Domain.Error.{invalid_argument}
use strato.Domain.Action.{Action, pure, fail_if, ◌>>=◌, ◌>>◌}
use strato.Pagination.{Cursor, zero_cursor}
use strato.Postgres.Listings
use strato.Usecase.Access.{own_folder}
use strato.Usecase.File.Change.{get}

own_target : Identity → Option ℕ → Action (Unit {0})
own_target ident none = pure tt
own_target ident (some id) = own_folder ident id

-- `List`.
unfoldable pub list : Identity → Option ℕ → Bool → Bool → Cursor → ℕ → Action (List File)
unfolding own_target
list ident folder_id include_deleted descending cur limit =
    own_target ident folder_id
    >> Listings.list ident.user_id folder_id include_deleted descending cur limit

-- `Search`.
unfoldable pub search :
    (Text → Text → Bool) → Identity → Text → Text → Cursor → ℕ → Action (List File)
search ilike ident text mime_type cur limit =
    fail_if (ltb (length text) 2 || ltb 100 (length text)) invalid_argument
    >> Listings.search ilike ident.user_id text mime_type cur limit

-- `ListVersions`.
unfoldable pub list_versions : Identity → ℕ → Cursor → ℕ → Action (List Version)
list_versions ident file_id cur limit =
    get ident file_id >>= λ _. Listings.list_by_file file_id cur limit

-- `ListFolder`: up to 1000 folders, and a page of files.
unfoldable pub list_folder : Identity → Option ℕ → Cursor → ℕ → Action (List Folder × List File)
unfolding own_target
list_folder ident folder_id cur limit =
    own_target ident folder_id
    >> (Listings.list_children ident.user_id folder_id zero_cursor 1000 >>= λ folders.
        Listings.list ident.user_id folder_id false false cur limit >>= λ files.
        pure (folders, files))
