-- ===== src/Postgres/FileRepo.antt =====
-- internal/repository/postgres/file_repo.go; `List` and `Search` stand in Listings.
use strato.Prelude.{
  map, ℕ, Bool, true, false, ◌&&◌, ◌||◌, not, List, ◌++◌, ◌∷◌, [], Option, none, some, ltb, ◌==◌,
  if◌then◌else◌, take, order_by, bytes_equal, same_id, find_row, any_row, update_rows, select_rows,
  delete_rows,
}
use strato.Entity.Account.{Text}
use strato.Entity.Storage.{File, Version, Blob}
use strato.Domain.Error.{Result, ok, err, not_found, already_exists}
use strato.Domain.World.{Db, World}
use strato.Domain.Action.{Action, statement, query, ◌>>◌}
use strato.Postgres.BlobRepo.{exec_one}

abbrev pub by_id : ℕ → File → Bool
by_id id f = f.id == id

-- A live file of that name in that place: the test of `GetByName` and of files_sibling_name_uq.
abbrev pub named : ℕ → Option ℕ → Text → File → Bool
named owner_id folder_id name f =
    f.owner_id == owner_id
    && (same_id f.folder_id folder_id && (bytes_equal f.name name && not f.is_deleted))

-- Another live file holds the name: the unique index refuses the row.
abbrev pub taken_by_other : File → File → Bool
taken_by_other f g = not (g.id == f.id) && named f.owner_id f.folder_id f.name g

abbrev pub joined_blob : File → Version → Option Blob → File
joined_blob f v none = record f { size_bytes = v.size_bytes; version_number = v.version_number }
joined_blob f v (some b) = record f {
  size_bytes = v.size_bytes;
  version_number = v.version_number;
  checksum = b.checksum;
}

abbrev pub joined_version : File → Option Version → Db → File
joined_version f none db = record f { size_bytes = 0; version_number = 0; checksum = 0 }
joined_version f (some v) db = joined_blob f v (find_row (λ b. b.id == v.blob_id) db.blobs)

abbrev pub version_row : Option ℕ → Db → Option Version
version_row none db = none
version_row (some id) db = find_row (λ v. v.id == id) db.versions

-- `fileSelect`: the row with its current version's size and number and its blob's checksum.
unfoldable pub selected : File → Db → File
selected f db = joined_version f (version_row f.current_version_id db) db

abbrev pub joined : Option File → Db → Result File
joined none db = err not_found
joined (some f) db = ok (selected f db)

exists_folder : Option ℕ → Db → Bool
exists_folder none db = true
exists_folder (some id) db = any_row (λ d. d.id == id) db.folders

abbrev pub inserted : File → World → File
inserted f w = record f {
  current_version_id = none;
  locked_by = none;
  locked_at = none;
  is_deleted = false;
  deleted_at = none;
  created_at = w.db_clock;
  updated_at = w.db_clock;
}

-- `Create`.
unfoldable pub create_row : File → World → Db → Result (Unit {0} × Db)
unfolding exists_folder
create_row f w db =
    if any_row (by_id f.id) db.files || any_row (named f.owner_id f.folder_id f.name) db.files
    then err already_exists
    else (if any_row (λ u. u.id == f.owner_id) db.users && exists_folder f.folder_id db
        then ok (tt, record db { files = db.files ++ inserted f w ∷ [] })
        else err not_found)

unfoldable pub create : File → Action (Unit {0})
unfolding create_row
create f = statement (create_row f)

-- `GetByID`, deleted files included.
unfoldable pub get_by_id : ℕ → Action File
unfolding selected
get_by_id id = query (λ w db. joined (find_row (by_id id) db.files) db)

-- `GetByName`.
unfoldable pub get_by_name : ℕ → Option ℕ → Text → Action File
unfolding selected
get_by_name owner_id folder_id name =
    query (λ w db. joined (find_row (named owner_id folder_id name) db.files) db)

-- An UPDATE of the row that `test` takes, with the unique index checked on the new row.
abbrev update_named : (File → Bool) → (File → File) → Db → Result (Unit {0} × Db)
update_named test f db = elim (find_row test db.files) [
  | none ↦ err not_found
  | some r ↦
      if not (f r).is_deleted && any_row (taken_by_other (f r)) db.files
      then err already_exists
      else ok (tt, record db { files = update_rows test f db.files })
]

abbrev live : ℕ → File → Bool
live id f = f.id == id && not f.is_deleted

abbrev trashed : ℕ → File → Bool
trashed id f = f.id == id && f.is_deleted

-- `Rename`.
unfoldable pub rename : ℕ → Text → Action (Unit {0})
rename id new_name =
    statement
      λ w db. update_named (live id) (λ f. record f { name = new_name; updated_at = w.db_clock }) db

-- `Move`: the folder's foreign key is checked too.
unfoldable pub move : ℕ → Option ℕ → Action (Unit {0})
unfolding exists_folder
move id folder_id = statement λ w db.
    if exists_folder folder_id db
    then update_named (live id) (λ f. record f { folder_id = folder_id; updated_at = w.db_clock })
        db
    else err not_found

-- `SetCurrentVersion`, whose version is one of the table (files_current_version_fk).
unfoldable pub set_current_row : ℕ → ℕ → World → Db → Result (Unit {0} × Db)
set_current_row file_id version_id w db =
    exec_one (any_row (by_id file_id) db.files && any_row (λ v. v.id == version_id) db.versions)
      (record db {
        files =
            update_rows (by_id file_id)
              (λ f. record f { current_version_id = some version_id; updated_at = w.db_clock })
              db.files;
      })

unfoldable pub set_current_version : ℕ → ℕ → Action (Unit {0})
unfolding set_current_row
set_current_version file_id version_id = statement (set_current_row file_id version_id)

-- `SoftDelete`.
unfoldable pub soft_delete : ℕ → Action (Unit {0})
soft_delete id = statement λ w db. exec_one (any_row (live id) db.files) (record db {
  files =
      update_rows (live id)
        (λ f. record f { is_deleted = true; deleted_at = some w.db_clock; updated_at = w.db_clock })
        db.files;
})

-- `Restore`.
unfoldable pub restore : ℕ → Action (Unit {0})
restore id = statement λ w db.
    update_named (trashed id)
      (λ f. record f { is_deleted = false; deleted_at = none; updated_at = w.db_clock }) db

-- `SetLock`: a lock is set on a live file only, and cleared on any.
unfoldable pub set_lock : ℕ → Option ℕ → Action (Unit {0})
set_lock id (some user_id) = statement λ w db. exec_one (any_row (live id) db.files) (record db {
  files =
      update_rows (live id)
        (λ f. record f {
          locked_by = some user_id;
          locked_at = some w.db_clock;
          updated_at = w.db_clock;
        })
        db.files;
})
set_lock id none = statement λ w db. exec_one (any_row (by_id id) db.files) (record db {
  files =
      update_rows (by_id id)
        (λ f. record f { locked_by = none; locked_at = none; updated_at = w.db_clock }) db.files;
})

abbrev pub deleted_before : ℕ → File → Bool
deleted_before cutoff f =
    f.is_deleted && (elim f.deleted_at [ none ↦ false | some t ↦ ltb t cutoff ])

abbrev pub deletion_time : File → ℕ
deletion_time f = elim f.deleted_at [ none ↦ 0 | some t ↦ t ]

-- `ListDeletedBefore`.
unfoldable pub list_deleted_before : ℕ → ℕ → Action (List File)
unfolding selected
list_deleted_before older_than limit = query λ w db.
    let rows = order_by deletion_time (select_rows (deleted_before older_than) db.files) in
    ok (map (λ f. selected f db) (take limit rows))

-- The DELETE of `Purge`: versions and shares of the file go with it.
unfoldable pub purge_rows : ℕ → Db → Db
purge_rows id db = record db {
  files = delete_rows (by_id id) db.files;
  versions = delete_rows (λ v. v.file_id == id) db.versions;
  shares = delete_rows (λ s. s.file_id == id) db.shares;
}

abbrev pub unlinked : File → File
unlinked f = record f { current_version_id = none }

unfoldable pub purge : ℕ → Action (Unit {0})
unfolding purge_rows
purge id =
    statement (λ w db. ok (tt, record db { files = update_rows (by_id id) unlinked db.files }))
    >> statement (λ w db. exec_one (any_row (by_id id) db.files) (purge_rows id db))
