-- ===== src/Postgres/Listings.antt =====
-- The paged listings of internal/repository/postgres: `List` and `Search` of file_repo.go, `ListByFile`
-- of version_repo.go, `ListByOwner` of share_repo.go and `ListChildren` of folder_repo.go.
pub mod Whole
use strato.Prelude.{
  ℕ, Bool, true, false, ◌&&◌, ◌||◌, not, List, [], ◌∷◌, ◌++◌, Option, none, some, map, ◌==◌,
  if◌then◌else◌, same_id, find_row, select_rows, bytes_equal, length,
}
use strato.Entity.Account.{Text, is_unset}
use strato.Entity.Access.{Share}
use strato.Entity.Storage.{File, Version, Folder, Blob}
use strato.Domain.Error.{ok}
use strato.Domain.World.{Db}
use strato.Domain.Action.{Action, query}
use strato.Pagination.{Cursor, page}
use strato.Postgres.FileRepo.{selected}

abbrev pub file_key : File → Cursor
file_key f = record { created_at = f.created_at; id = f.id }

abbrev pub version_key : Version → Cursor
version_key v = record { created_at = v.created_at; id = v.id }

abbrev pub share_key : Share → Cursor
share_key s = record { created_at = s.created_at; id = s.id }

abbrev pub folder_key : Folder → Cursor
folder_key f = record { created_at = f.created_at; id = f.id }

abbrev listed : ℕ → Option ℕ → Bool → File → Bool
listed owner_id folder_id include_deleted f =
    f.owner_id == owner_id
    && (same_id f.folder_id folder_id && (include_deleted || not f.is_deleted))

-- The files that `List` pages.
abbrev pub folder_files : ℕ → Option ℕ → Bool → Db → List File
folder_files owner_id folder_id include_deleted db =
    select_rows (listed owner_id folder_id include_deleted) (map (λ f. selected f db) db.files)

-- `FileRepo.List`.
unfoldable pub list_page : ℕ → Option ℕ → Bool → Bool → Db → ℕ → Cursor → List File
list_page owner_id folder_id include_deleted descending db limit cur =
    page file_key descending cur limit (folder_files owner_id folder_id include_deleted db)

unfoldable pub list : ℕ → Option ℕ → Bool → Bool → Cursor → ℕ → Action (List File)
unfolding list_page
list owner_id folder_id include_deleted descending cur limit =
    query λ w db. ok (list_page owner_id folder_id include_deleted descending db limit cur)

-- An empty MIME type asks for any.
fits_mime : Text → File → Bool
fits_mime [] f = true
fits_mime (c ∷ mime) f = bytes_equal f.mime_type (c ∷ mime)

-- `FileRepo.Search`; `ilike` is ILIKE of PostgreSQL, of a text and a pattern.
unfoldable pub search : (Text → Text → Bool) → ℕ → Text → Text → Cursor → ℕ → Action (List File)
unfolding fits_mime
search ilike owner_id text mime_type cur limit = query λ w db. ok (
    page file_key false cur limit (
      select_rows
        (λ f.
          f.owner_id == owner_id
          && (not f.is_deleted
              && (ilike f.name (b'%' ∷ text ++ b'%' ∷ []) && fits_mime mime_type f)))
        (map (λ f. selected f db) db.files)))

with_checksum : Version → Option Blob → List Version → List Version
with_checksum v none vs = vs
with_checksum v (some b) vs = record v { checksum = b.checksum } ∷ vs

-- The join of `versionSelect`.
unfoldable pub joined_versions : List Blob → List Version → List Version
unfolding with_checksum
joined_versions bs [] = []
joined_versions bs (v ∷ vs) =
    with_checksum v (find_row (λ b. b.id == v.blob_id) bs) (joined_versions bs vs)

-- The versions that `ListByFile` pages.
abbrev pub file_versions : ℕ → Db → List Version
file_versions file_id db =
    select_rows (λ v. v.file_id == file_id) (joined_versions db.blobs db.versions)

-- `VersionRepo.ListByFile`.
unfoldable pub version_page : ℕ → Db → ℕ → Cursor → List Version
version_page file_id db limit cur = page version_key true cur limit (file_versions file_id db)

unfoldable pub list_by_file : ℕ → Cursor → ℕ → Action (List Version)
unfolding version_page
list_by_file file_id cur limit = query (λ w db. ok (version_page file_id db limit cur))

any_file : Option ℕ → ℕ → Bool
any_file none id = true
any_file (some file_id) id = id == file_id

-- `ShareRepo.ListByOwner`.
unfoldable pub list_by_owner : ℕ → Option ℕ → Cursor → ℕ → Action (List Share)
unfolding any_file
list_by_owner owner_id file_id cur limit = query λ w db. ok (
    page share_key false cur limit (
      select_rows
        (λ s. s.owner_id == owner_id && (is_unset s.revoked_at && any_file file_id s.file_id))
        db.shares))

-- `FolderRepo.ListChildren`.
unfoldable pub list_children : ℕ → Option ℕ → Cursor → ℕ → Action (List Folder)
list_children owner_id parent_id cur limit = query λ w db. ok (
    page folder_key false cur limit (
      select_rows
        (λ f. f.owner_id == owner_id && (same_id f.parent_id parent_id && is_unset f.deleted_at))
        db.folders))
