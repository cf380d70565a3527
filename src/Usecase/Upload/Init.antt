-- ===== src/Usecase/Upload/Init.antt =====
-- `InitUpload` and `UploadChunk` of internal/usecase/upload_uc.go.
use strato.Prelude.{ℕ, ◌+◌, Bool, true, false, ◌||◌, not, Option, none, some, take, ltb, leb, ◌==◌}
use strato.Crypto.Cipher.{Bytes}
use strato.Entity.Account.{Text, can_store}
use strato.Entity.Access.{Identity}
use strato.Entity.Storage.{chunk_key, is_locked_by_other}
use strato.Entity.Upload.{UploadSession, pending, Chunk, expected_chunk_size, chunk_count}
use strato.Domain.Error.{ok, err, not_found, invalid_argument, quota_exceeded, file_locked}
use strato.Domain.Action.{Action, pure, fail, gets, lift, attempt, fail_if, ◌>>=◌, ◌>>◌}
use strato.Outside.{Env, new_id, put}
use strato.Postgres.FolderRepo
use strato.Postgres.FileRepo
use strato.Postgres.QuotaRepo
use strato.Postgres.BlobRepo
use strato.Postgres.UploadRepo
use strato.Usecase.Names.{validate_name, parse_optional_id, hex_digest}
use strato.Usecase.Upload.Session.{active_session}

-- The folder, if any, is one of the caller's.
check_folder : ℕ → Option ℕ → Action (Unit {0})
check_folder user_id none = pure tt
check_folder user_id (some id) = attempt (FolderRepo.get_by_id id) >>= λ r. elim r [
  | err _ ↦ fail not_found
  | ok f ↦ fail_if (not (f.owner_id == user_id)) not_found
]

-- A file of that name that someone else has locked; errors of the lookup are dropped.
check_lock : ℕ → Option ℕ → Text → Action (Unit {0})
check_lock user_id folder name = attempt (FileRepo.get_by_name user_id folder name) >>= λ r.
    elim r [ err _ ↦ pure tt | ok f ↦ fail_if (is_locked_by_other f user_id) file_locked ]

known_content : ℕ → Action Bool
known_content sum =
    attempt (BlobRepo.get_by_checksum sum) >>= λ r. elim r [ err _ ↦ pure false | ok _ ↦ pure true ]

-- `InitUpload`, for a size that is not negative: the session, and whether the content is known.
unfoldable pub init_upload :
    Env → Identity → Text → Text → Text → ℕ → Text → Action (UploadSession × Bool)
unfolding check_folder check_lock known_content
init_upload env ident raw_name folder_id mime_type size checksum_hex =
    lift (validate_name raw_name) >>= λ name.
    fail_if (size == 0 || ltb env.max_file_size size) invalid_argument
    >> (lift (hex_digest checksum_hex) >>= λ checksum.
        lift (parse_optional_id env folder_id) >>= λ folder.
        check_folder ident.user_id folder
        >> (check_lock ident.user_id folder name
            >> (QuotaRepo.get ident.user_id >>= λ quota.
                fail_if (not (can_store quota size)) quota_exceeded
                >> (known_content checksum >>= λ already_exists. new_id env >>= λ id.
                    gets (λ w. w.clock) >>= λ now.
                    let s : UploadSession = record {
                      id = id;
                      user_id = ident.user_id;
                      folder_id = folder;
                      name = name;
                      mime_type = mime_type;
                      size_bytes = size;
                      checksum = checksum;
                      chunk_size = env.chunk_size;
                      total_chunks = chunk_count size env.chunk_size;
                      status = pending;
                      created_at = 0;
                      expires_at = now + env.session_ttl;
                    } in
                    UploadRepo.create_session s >> pure (s, already_exists)))))

-- `UploadChunk` with the bytes that the body would give, for an index that is not negative: the
-- reader is cut at the size that is expected, and any error of `Put` is `invalid_argument`.
unfoldable pub upload_chunk : Env → Identity → ℕ → ℕ → Bytes → Action Chunk
upload_chunk env ident session_id index body = active_session ident session_id >>= λ s.
    fail_if (leb s.total_chunks index) invalid_argument
    >> (let expected = expected_chunk_size s index in
        let sent = take expected body in
        let key = chunk_key s.id index in
        attempt (put key sent expected) >>= λ r. elim r [
          | err _ ↦ fail invalid_argument
          | ok _ ↦
              let chunk : Chunk = record {
                session_id = s.id;
                index = index;
                size_bytes = expected;
                checksum = env.sha256 sent;
                storage_key = key;
                uploaded_at = 0;
              } in
              UploadRepo.save_chunk chunk >> pure chunk
        ])
