-- ===== src/Postgres/FolderRepo.antt =====
-- internal/repository/postgres/folder_repo.go; `ListChildren` stands in Listings.
use strato.Prelude.{
  ℕ, Bool, true, ◌&&◌, ◌||◌, not, ◌++◌, ◌∷◌, [], none, some, ◌==◌, if◌then◌else◌, bytes_equal,
  same_id, find_row, any_row, update_rows,
}
use strato.Entity.Account.{is_unset}
use strato.Entity.Storage.{Folder}
use strato.Domain.Error.{Result, ok, err, not_found, already_exists}
use strato.Domain.World.{Db, World}
use strato.Domain.Action.{Action, statement, query}
use strato.Postgres.BlobRepo.{found, exec_one}

abbrev pub live : ℕ → Folder → Bool
live id f = f.id == id && is_unset f.deleted_at

-- A live folder of that name in that place: folders_sibling_name_uq.
abbrev sibling : Folder → Folder → Bool
sibling f g =
    g.owner_id == f.owner_id
    && (same_id g.parent_id f.parent_id && (bytes_equal g.name f.name && is_unset g.deleted_at))

abbrev known_parent : Folder → Db → Bool
known_parent f db = elim f.parent_id [
  | none ↦ true
  | some id ↦ any_row (λ d. d.id == id) db.folders
]

-- `Create`.
unfoldable pub create_row : Folder → World → Db → Result (Unit {0} × Db)
create_row f w db =
    if any_row (λ g. g.id == f.id) db.folders || any_row (sibling f) db.folders
    then err already_exists
    else (if any_row (λ u. u.id == f.owner_id) db.users && known_parent f db
        then ok (
          tt,
          record db {
            folders =
                db.folders
                ++ record f { created_at = w.db_clock; updated_at = w.db_clock; deleted_at = none }
                  ∷ [];
          },
        )
        else err not_found)

unfoldable pub create : Folder → Action (Unit {0})
unfolding create_row
create f = statement (create_row f)

-- `GetByID`: a live folder.
unfoldable pub get_by_id : ℕ → Action Folder
get_by_id id = query (λ w db. found (find_row (live id) db.folders))

-- `SoftDelete`.
unfoldable pub soft_delete : ℕ → Action (Unit {0})
soft_delete id = statement λ w db. exec_one (any_row (live id) db.folders) (record db {
  folders =
      update_rows (live id)
        (λ f. record f { deleted_at = some w.db_clock; updated_at = w.db_clock }) db.folders;
})

-- `HasChildren`.
unfoldable pub has_children : ℕ → Action Bool
has_children id = query λ w db. ok (
    any_row (λ f. same_id f.parent_id (some id) && is_unset f.deleted_at) db.folders
    || any_row (λ f. same_id f.folder_id (some id) && not f.is_deleted) db.files)
