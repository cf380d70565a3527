-- ===== src/Postgres/UploadRepo.antt =====
-- internal/repository/postgres/upload_repo.go.
use strato.Prelude.{
  ℕ, Bool, true, ◌&&◌, ◌||◌, List, ◌++◌, ◌∷◌, [], Option, none, some, ltb, ◌==◌, if◌then◌else◌,
  take, order_by, find_row, any_row, update_rows, select_rows,
}
use strato.Entity.Upload.{UploadSession, UploadStatus, Chunk, is_pending}
use strato.Domain.Error.{Result, ok, err, not_found, already_exists, infra}
use strato.Domain.World.{Db, World}
use strato.Domain.Action.{Action, statement, query}
use strato.Postgres.BlobRepo.{found, exec_one}

abbrev pub by_id : ℕ → UploadSession → Bool
by_id id s = s.id == id

exists_folder : Option ℕ → Db → Bool
exists_folder none db = true
exists_folder (some id) db = any_row (λ d. d.id == id) db.folders

-- `CreateSession`: the CHECKs ask for sizes and a count that are not 0.
unfoldable pub create_session_row : UploadSession → World → Db → Result (Unit {0} × Db)
unfolding exists_folder
create_session_row s w db =
    if s.size_bytes == 0 || (s.chunk_size == 0 || s.total_chunks == 0)
    then err infra
    else (if any_row (by_id s.id) db.uploads
        then err already_exists
        else (if any_row (λ u. u.id == s.user_id) db.users && exists_folder s.folder_id db
            then ok (
              tt,
              record db { uploads = db.uploads ++ record s { created_at = w.db_clock } ∷ [] },
            )
            else err not_found))

unfoldable pub create_session : UploadSession → Action (Unit {0})
unfolding create_session_row
create_session s = statement (create_session_row s)

-- `GetSession`.
unfoldable pub get_session : ℕ → Action UploadSession
get_session id = query (λ w db. found (find_row (by_id id) db.uploads))

-- `UpdateStatus`.
unfoldable pub update_status_row : ℕ → UploadStatus → Db → Result (Unit {0} × Db)
update_status_row id status db =
    exec_one (any_row (by_id id) db.uploads) (record db {
      uploads = update_rows (by_id id) (λ s. record s { status = status }) db.uploads;
    })

unfoldable pub update_status : ℕ → UploadStatus → Action (Unit {0})
unfolding update_status_row
update_status id status = statement (λ w db. update_status_row id status db)

abbrev pub same_chunk : Chunk → Chunk → Bool
same_chunk c d = d.session_id == c.session_id && d.index == c.index

-- `SaveChunk`: an upsert by session and index.
unfoldable pub save_chunk_row : Chunk → World → Db → Result (Unit {0} × Db)
save_chunk_row c w db =
    if c.size_bytes == 0
    then err infra
    else (if any_row (by_id c.session_id) db.uploads
        then (if any_row (same_chunk c) db.chunks
            then ok (
              tt,
              record db {
                chunks =
                    update_rows (same_chunk c)
                      (λ d. record d {
                        size_bytes = c.size_bytes;
                        checksum = c.checksum;
                        storage_key = c.storage_key;
                        uploaded_at = w.db_clock;
                      })
                      db.chunks;
              },
            )
            else ok (
              tt,
              record db { chunks = db.chunks ++ record c { uploaded_at = w.db_clock } ∷ [] },
            ))
        else err not_found)

unfoldable pub save_chunk : Chunk → Action (Unit {0})
unfolding save_chunk_row
save_chunk c = statement (save_chunk_row c)

abbrev pub chunks_of : ℕ → Db → List Chunk
chunks_of session_id db =
    order_by (λ c. c.index) (select_rows (λ c. c.session_id == session_id) db.chunks)

-- `ListChunks`.
unfoldable pub list_chunks : ℕ → Action (List Chunk)
list_chunks session_id = query (λ w db. ok (chunks_of session_id db))

-- `ListExpired`.
unfoldable pub list_expired : ℕ → ℕ → Action (List UploadSession)
list_expired now limit = query λ w db. ok (
    take limit (
      order_by (λ s. s.expires_at)
        (select_rows (λ s. is_pending s.status && ltb s.expires_at now) db.uploads)))
