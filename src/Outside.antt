-- ===== src/Outside.antt =====
-- What the use cases reach besides the database: the object store (internal/storage/minio.go), the
-- lock of internal/repository/redis/lock.go, and random values.
pub mod Tables
use strato.Prelude.{
  not, ℕ, suc, Bool, true, false, ◌&&◌, ◌∷◌, Option, none, some, length, take, leb, ◌==◌,
  if◌then◌else◌, any_row, find_row, delete_rows,
}
use strato.Crypto.Cipher.{Bytes, Aead}
use strato.Entity.Account.{Text}
use strato.Entity.Storage.{Key, blob_key, chunk_key}
use strato.Domain.Error.{ok, err, not_found, infra}
use strato.Domain.Action.{Action, outside, ignore}

-- What the program is given: random values by the number of the draw, SHA-256 with its digest as a
-- number, AES-GCM, uuid.Parse, the key-encryption key and the policy of `UploadConfig`.
pub record Env : Type 0 where
  pub uuid : ℕ → ℕ
  pub random : ℕ → ℕ → Bytes
  pub sha256 : Bytes → ℕ
  pub aead : Aead
  pub parse_uuid : Text → Option ℕ
  pub kek : Bytes
  pub chunk_size : ℕ
  pub max_file_size : ℕ
  pub session_ttl : ℕ

-- `uuid.New`.
unfoldable pub new_id : Env → Action ℕ
new_id env w = (ok (env.uuid w.drawn), record w { drawn = suc w.drawn })

-- rand.Read of `n` bytes.
unfoldable pub random_bytes : Env → ℕ → Action Bytes
random_bytes env n = outside λ w. (ok (env.random w.drawn n), record w { drawn = suc w.drawn })

abbrev pub same_key : Key → Key → Bool
same_key (blob_key a) (blob_key b) = a == b
same_key (chunk_key s i) (chunk_key t j) = s == t && i == j
same_key _ _ = false

abbrev pub holds : Key → Key × Bytes → Bool
holds key (k, _) = same_key k key

-- `Put` of exactly `size` bytes of a reader: a reader that ends before them fails the call, and no
-- more are taken. An object of that key is replaced.
unfoldable pub put : Key → Bytes → ℕ → Action (Unit {0})
put key body size =
    let fits = leb size (length body) in
    outside λ w. (
      if fits then ok tt else err infra,
      record w {
        objects =
            if fits then (key, take size body) ∷ delete_rows (holds key) w.objects else w.objects;
      },
    )

-- `Get`, with the whole object.
unfoldable pub get : Key → Action Bytes
get key = outside λ w.
    (elim (find_row (holds key) w.objects) [ none ↦ err not_found | some (_, body) ↦ ok body ], w)

-- `Delete`: a missing key is no error.
unfoldable pub delete : Key → Action (Unit {0})
delete key = outside (λ w. (ok tt, record w { objects = delete_rows (holds key) w.objects }))

-- `TryLock`: whether the lock was free, and is now held.
unfoldable pub try_lock : ℕ → Action Bool
try_lock key = outside λ w.
    let held = any_row (λ k. k == key) w.locks in
    (ok (not held), record w { locks = if held then w.locks else key ∷ w.locks })

-- The `release` of a lock that was taken: its error is dropped.
unfoldable pub release_lock : ℕ → Action (Unit {0})
release_lock key = outside (λ w. (ok tt, record w { locks = delete_rows (λ k. k == key) w.locks }))

unfoldable pub unlock : ℕ → Action (Unit {0})
unfolding release_lock
unlock key = ignore (release_lock key)
