-- ===== src/Postgres/BlobRepo.antt =====
-- internal/repository/postgres/blob_repo.go.
use strato.Prelude.{
  ◌≡◌, ap, ℕ, ◌+◌, ◌-◌, Bool, ◌&&◌, List, ◌++◌, ◌∷◌, [], Option, none, some, ltb, leb, not, ◌^◌,
  ◌==◌, if◌then◌else◌, take, order_by, find_row, any_row, update_rows, select_rows, delete_rows,
  count_rows, ◌||◌,
}
use strato.Entity.Storage.{Blob, Version}
use strato.Domain.Error.{ok-injective, Result, ok, err, infra, not_found, already_exists}
use strato.Domain.World.{Db, World}
use strato.Domain.Action.{Action, statement, query}

abbrev pub by_id : ℕ → Blob → Bool
by_id id b = b.id == id

abbrev pub by_checksum : ℕ → Blob → Bool
by_checksum sum b = b.checksum == sum

abbrev pub found {ℓ} : {A : Type ℓ} → Option A → Result A
found none = err not_found
found (some a) = ok a

pub found-ok {ℓ} : {A : Type ℓ} (o : Option A) (a : A) → found o ≡ ok a → o ≡ some a
found-ok none a e = cc
found-ok (some b) a e = ap some (ok-injective e)

-- `execOne`: an UPDATE or DELETE that takes no row is `not_found`.
abbrev pub exec_one : Bool → Db → Result (Unit {0} × Db)
exec_one taken db = if taken then ok (tt, db) else err not_found

-- `Create`.
unfoldable pub create_row : Blob → World → Db → Result (Unit {0} × Db)
create_row b w db =
    if any_row (by_id b.id) db.blobs || any_row (by_checksum b.checksum) db.blobs
    then err already_exists
    else ok (tt, record db { blobs = db.blobs ++ record b { created_at = w.db_clock } ∷ [] })

unfoldable pub create : Blob → Action (Unit {0})
unfolding create_row
create b = statement (create_row b)

-- `GetByChecksum`.
unfoldable pub get_by_checksum : ℕ → Action Blob
get_by_checksum sum = query (λ w db. found (find_row (by_checksum sum) db.blobs))

-- `GetByID`.
unfoldable pub get_by_id : ℕ → Action Blob
get_by_id id = query (λ w db. found (find_row (by_id id) db.blobs))

-- The row whose count is the greatest INTEGER.
abbrev pub full : ℕ → Blob → Bool
full id b = b.id == id && leb (2 ^ 31 - 1) b.ref_count

-- `IncrementRef`: a count that is out of range is an error that `mapErr` passes on.
unfoldable pub increment_row : ℕ → Db → Result (Unit {0} × Db)
increment_row id db =
    if any_row (full id) db.blobs
    then err infra
    else exec_one (any_row (by_id id) db.blobs) (record db {
      blobs = update_rows (by_id id) (λ b. record b { ref_count = b.ref_count + 1 }) db.blobs;
    })

unfoldable pub increment_ref : ℕ → Action (Unit {0})
unfolding increment_row
increment_ref id = statement (λ w db. increment_row id db)

-- `DecrementRef`.
unfoldable pub decrement_ref : ℕ → Action (Unit {0})
decrement_ref id = statement λ w db. exec_one (any_row (by_id id) db.blobs) (record db {
  blobs = update_rows (by_id id) (λ b. record b { ref_count = b.ref_count - 1 }) db.blobs;
})

-- The versions of a file that refer to a blob: `refs.n` of `DecrementRefsForFile`.
abbrev pub refs_of : ℕ → ℕ → List Version → ℕ
refs_of file_id blob_id versions =
    count_rows (λ v. v.file_id == file_id && v.blob_id == blob_id) versions

-- `DecrementRefsForFile`: a blob with no reference from the file is not joined, and loses none.
unfoldable pub decrement_rows_for_file : ℕ → Db → Db
decrement_rows_for_file file_id db = record db {
  blobs =
      update_rows (λ b. ltb 0 (refs_of file_id b.id db.versions))
        (λ b. record b { ref_count = b.ref_count - refs_of file_id b.id db.versions }) db.blobs;
}

unfoldable pub decrement_refs_for_file : ℕ → Action (Unit {0})
unfolding decrement_rows_for_file
decrement_refs_for_file file_id = statement (λ w db. ok (tt, decrement_rows_for_file file_id db))

-- `ListOrphaned`.
unfoldable pub list_orphaned : ℕ → ℕ → Action (List Blob)
list_orphaned older_than limit = query λ w db. ok (
    take limit (
      order_by (λ b. b.created_at)
        (select_rows (λ b. b.ref_count == 0 && ltb b.created_at older_than) db.blobs)))

abbrev pub unreferenced : ℕ → Blob → Bool
unreferenced id b = b.id == id && b.ref_count == 0

-- A version refers to the blob.
abbrev pub referenced : ℕ → Db → Bool
referenced id db = any_row (λ v. v.blob_id == id) db.versions

-- `Delete`: `mapErr` makes `not_found` of the violation of the foreign key of the versions too.
unfoldable pub delete : ℕ → Action (Unit {0})
delete id = statement λ w db.
    exec_one (any_row (unreferenced id) db.blobs && not (referenced id db))
      (record db { blobs = delete_rows (unreferenced id) db.blobs })
