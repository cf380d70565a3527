-- ===== src/Postgres/VersionRepo.antt =====
-- internal/repository/postgres/version_repo.go.
use strato.Prelude.{
  ℕ, ◌+◌, Bool, ◌&&◌, List, ◌++◌, ◌∷◌, [], none, some, ltb, ◌==◌, if◌then◌else◌, find_row, any_row,
  sum_rows,
}
use strato.Entity.Storage.{Version}
use strato.Domain.Error.{Result, ok, err, not_found, already_exists}
use strato.Domain.World.{Db, World}
use strato.Domain.Action.{Action, statement, query}

abbrev pub of_file : ℕ → Version → Bool
of_file file_id v = v.file_id == file_id

-- MAX(version_number) of a file, 0 if it has no version.
abbrev pub max_version : ℕ → List Version → ℕ
max_version file_id [] = 0
max_version file_id (v ∷ vs) =
    let rest = max_version file_id vs in
    if v.file_id == file_id && ltb rest v.version_number then v.version_number else rest

-- `Create`: the row as it is inserted, with the next number of its file.
unfoldable pub create_row : Version → World → Db → Result (Version × Db)
create_row v w db =
    let row = record v {
      version_number = max_version v.file_id db.versions + 1;
      created_at = w.db_clock;
    } in
    if any_row (λ x. x.id == v.id) db.versions
    then err already_exists
    else (if any_row (λ f. f.id == v.file_id) db.files
          && (any_row (λ b. b.id == v.blob_id) db.blobs
              && any_row (λ u. u.id == v.created_by) db.users)
        then ok (row, record db { versions = db.versions ++ row ∷ [] })
        else err not_found)

unfoldable pub create : Version → Action Version
unfolding create_row
create v = statement (create_row v)

-- `GetByID`, which joins the blob's checksum.
unfoldable pub get_by_id : ℕ → Action Version
get_by_id id = query λ w db. elim (find_row (λ v. v.id == id) db.versions) [
  | none ↦ err not_found
  | some v ↦ elim (find_row (λ b. b.id == v.blob_id) db.blobs) [
    | none ↦ err not_found
    | some b ↦ ok (record v { checksum = b.checksum })
  ]
]

abbrev pub total_of : ℕ → Db → ℕ
total_of file_id db = sum_rows (of_file file_id) (λ v. v.size_bytes) db.versions

-- `TotalBytes`.
unfoldable pub total_bytes : ℕ → Action ℕ
total_bytes file_id = query (λ w db. ok (total_of file_id db))
