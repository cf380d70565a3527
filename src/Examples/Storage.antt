-- ===== src/Examples/Storage.antt =====
-- internal/usecase and internal/service/gc.go on a small store.
use strato.Prelude.{
  ℕ, zero, suc, ◌+◌, ◌≡◌, refl, Bool, true, false, List, [], ◌∷◌, none, some, arith, ◌↔◌,
}
use strato.Crypto.Cipher.{Bytes}
use strato.Crypto.Toy.{toy}
use strato.Entity.Account.{role_user}
use strato.Entity.Access.{Identity, viewer, editor}
use strato.Entity.Storage.{File, blob_key, chunk_key, is_locked_by_other}
use strato.Entity.Upload.{UploadSession, pending}
use strato.Usecase.Upload.Readable.{Readable}
use strato.Domain.World.{Db, World}
use strato.Domain.Ends.{Ends}
use strato.Domain.Error.{ok}
use strato.Postgres.FileRepo.{selected}
use strato.Outside.{Env}
use strato.Ledger.Balance.{Ledger}
use strato.Ledger.Trash.{purge_file-Ledger}
use strato.Service.Gc.{GcConfig, purge_file, sweep}
use strato.Ledger.Sweep.{sweep-Ledger}
use strato.Usecase.File.Change.{restore_version}
use strato.Usecase.File.Accounts.{restore_version-Ledger}
use strato.Usecase.Access.{authorize_file, mutable_file}
use strato.Usecase.Authorized.{
  Authorized, Allowed, authorize_file-Authorized, mutable_file-Authorized,
}
use strato.Usecase.Upload.Complete.{complete}
use strato.Usecase.Upload.Accounts.{complete-Ledger}

abbrev pub repeat : ℕ → ℕ → Bytes
repeat zero b = []
repeat (suc n) b = b ∷ repeat n b

-- Ids count up, random bytes are zeros, a digest is the first byte.
abbrev pub env : Env
env = record {
  uuid = λ n. 100 + n;
  random = λ _ n. repeat n 0;
  sha256 = λ bs. elim bs [ [] ↦ 0 | b ∷ _ ↦ b ];
  aead = toy;
  parse_uuid = λ _. none;
  kek = repeat 32 7;
  chunk_size = 4;
  max_file_size = 1000;
  session_ttl = 60;
}

abbrev pub ann : Identity
ann = record { user_id = 1; email = []; role = role_user }

abbrev file : File
file = record {
  id = 5;
  owner_id = 1;
  folder_id = none;
  name = b'a' ∷ [];
  mime_type = [];
  current_version_id = some 6;
  locked_by = none;
  locked_at = none;
  is_deleted = true;
  deleted_at = some 1;
  created_at = 0;
  updated_at = 0;
  size_bytes = 0;
  checksum = 0;
  version_number = 0;
}

abbrev pub live_file : File
live_file = record {
  id = 4;
  owner_id = 1;
  folder_id = none;
  name = b'c' ∷ [];
  mime_type = [];
  current_version_id = none;
  locked_by = none;
  locked_at = none;
  is_deleted = false;
  deleted_at = none;
  created_at = 0;
  updated_at = 0;
  size_bytes = 0;
  checksum = 0;
  version_number = 0;
}

-- A user with a live file and a file in the trash, with a version of two and one of three bytes of
-- one blob, and with an upload of three bytes whose one chunk has come.
abbrev pub tables : Db
tables = record {
  users =
      record {
        id = 1;
        email = [];
        password_hash = [];
        display_name = [];
        role = role_user;
        created_at = 0;
        updated_at = 0;
        deleted_at = none;
      }
      ∷ [];
  sessions = [];
  quotas = record { user_id = 1; quota_bytes = 10; used_bytes = 5; updated_at = 0 } ∷ [];
  folders = [];
  blobs =
      record {
        id = 7;
        checksum = 8;
        size_bytes = 3;
        storage_key = blob_key 8;
        wrapped_dek = [];
        ref_count = 2;
        created_at = 0;
      }
      ∷ [];
  files = live_file ∷ file ∷ [];
  versions =
      record {
        id = 6;
        file_id = 5;
        version_number = 1;
        blob_id = 7;
        size_bytes = 3;
        created_by = 1;
        created_at = 0;
        checksum = 0;
      }
      ∷ record {
        id = 9;
        file_id = 4;
        version_number = 1;
        blob_id = 7;
        size_bytes = 2;
        created_by = 1;
        created_at = 0;
        checksum = 0;
      }
      ∷ [];
  uploads =
      record {
        id = 2;
        user_id = 1;
        folder_id = none;
        name = b'b' ∷ [];
        mime_type = [];
        size_bytes = 3;
        checksum = 9;
        chunk_size = 4;
        total_chunks = 1;
        status = pending;
        created_at = 0;
        expires_at = 50;
      }
      ∷ [];
  chunks =
      record {
        session_id = 2;
        index = 0;
        size_bytes = 3;
        checksum = 9;
        storage_key = chunk_key 2 0;
        uploaded_at = 0;
      }
      ∷ [];
  shares = [];
  audit = [];
}

-- The world of these tables, with faults to come.
abbrev pub world : List Bool → World
world faults = record {
  db = tables;
  objects = (chunk_key 2 0, 9 ∷ 1 ∷ 2 ∷ []) ∷ [];
  locks = [];
  faults = faults;
  drawn = 0;
  clock = 10;
  db_clock = 10;
}

balanced : Ledger tables
balanced = record {
  refs = (refl, tt);
  usage = ((refl, omega arith), tt);
  one_quota = λ u. ground arith;
  one_file = λ u. ground arith;
  stored = ((refl, refl), ((refl, refl), tt));
}

complete-Ledger_example : Ledger (complete env ann 2 (world [])).1.db
complete-Ledger_example = complete-Ledger env ann 2 (world []) balanced

purge_file-Ledger_example : Ledger (purge_file file (world (false ∷ false ∷ true ∷ []))).1.db
purge_file-Ledger_example =
    purge_file-Ledger file (world (false ∷ false ∷ true ∷ [])) balanced (λ _ u. ground arith)

-- A user with whom the file of `tables` is shared.
abbrev guest : Identity
guest = record { user_id = 2; email = []; role = role_user }

abbrev shared : World
shared = record (world []) {
  db = record tables {
    shares =
        record {
          id = 3;
          file_id = 4;
          owner_id = 1;
          grantee_id = some 2;
          permission = viewer;
          token_hash = none;
          password_hash = none;
          expires_at = some 20;
          created_at = 0;
          revoked_at = none;
        }
        ∷ [];
  };
}

authorize_file-Authorized_example :
    Ends (authorize_file guest 4 viewer shared) (λ f _. Allowed guest 4 viewer shared f)
    × (((authorize_file guest 4 viewer (record shared { faults = [] })).0
          ≡ ok (selected live_file shared.db))
        ↔ Allowed guest 4 viewer shared (selected live_file shared.db))
authorize_file-Authorized_example =
    authorize_file-Authorized guest 4 viewer (selected live_file shared.db) shared

mutable_file-Authorized_example : Ends (mutable_file ann 4 editor (world [])) (λ f _.
    Authorized ann editor (world []) f × (f.is_deleted ≡ false) × (is_locked_by_other f 1 ≡ false))
mutable_file-Authorized_example = mutable_file-Authorized ann 4 editor (world [])

restore_version-Ledger_example : Ledger (restore_version env ann 4 9 (world [])).1.db
restore_version-Ledger_example = restore_version-Ledger env ann 4 9 (world []) balanced

abbrev cfg : GcConfig
cfg = record { trash_retention = 1; orphan_grace = 1; batch_size = 10 }

sweep-Ledger_example : Ledger (sweep cfg (world [])).1.db
sweep-Ledger_example = sweep-Ledger cfg (world []) balanced

-- The upload of `tables`.
abbrev upload : UploadSession
upload = record {
  id = 2;
  user_id = 1;
  folder_id = none;
  name = b'b' ∷ [];
  mime_type = [];
  size_bytes = 3;
  checksum = 9;
  chunk_size = 4;
  total_chunks = 1;
  status = pending;
  created_at = 0;
  expires_at = 50;
}
