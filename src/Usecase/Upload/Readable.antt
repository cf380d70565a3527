-- ===== src/Usecase/Upload/Readable.antt =====
-- What `assembleBlob` of internal/usecase/upload_uc.go stores can be read (`OpenFileContent` of file_uc.go).
use strato.Prelude.{ℕ, ◌+◌, ◌≡◌, List, [], ◌∷◌, ◌++◌, Option, none, some, length, find_row}
use strato.Crypto.Cipher.{Bytes, key_size}
use strato.Crypto.KeyWrap.{Wrapped, unwrap_key}
use strato.Crypto.Stream.Frame.{default_segment_size, nonce_prefix_len}
use strato.Crypto.Stream.Emitted.{Stream}
use strato.Crypto.Stream.Reader.{Reader, read_all}
use strato.Crypto.Stream.Size.{encrypted_size}
use strato.Entity.Storage.{Key, Blob}
use strato.Entity.Upload.{UploadSession, Chunk}
use strato.Domain.Error.{ok}
use strato.Domain.World.{World}
use strato.Domain.Ends.{Ends}
use strato.Outside.{Env, holds}
use strato.Postgres.BlobRepo
use strato.Postgres.UploadRepo
use strato.Usecase.File.Content.{open_blob}

body_of : Option (Key × Bytes) → Bytes
body_of none = []
body_of (some (_, body)) = body

-- The content that is staged for the chunks: their objects, one after the other.
unfoldable pub staged : List (Key × Bytes) → List Chunk → Bytes
unfolding body_of
staged objects [] = []
staged objects (c ∷ cs) = body_of (find_row (holds c.storage_key) objects) ++ staged objects cs

-- A plaintext as it is kept: under a wrapped key that opens, as a whole stream.
record Sealed (env : Env) (pt wrapped_dek stream : Bytes) : Type 0 where
  pub dek : Bytes
  pub prefix : Bytes
  pub unwraps : unwrap_key env.aead env.kek wrapped_dek ≡ Wrapped.ok dek
  pub full_key : length dek ≡ key_size
  pub full_prefix : length prefix ≡ nonce_prefix_len
  pub whole : Stream env.aead dek prefix default_segment_size pt stream

-- The blob is read to a plaintext, which is of the digest of the session: in two more rounds than the stream
-- has bytes and `more`, with a buffer of `n`.
pub record Readable (env : Env) (s : UploadSession) (pt : Bytes) (more n : ℕ) (b : Blob) (v : World)
    : Type 0 where
  pub reader : Reader
  pub opens : (open_blob env b (record v { faults = [] })).0 ≡ ok reader
  pub reads :
      read_all env.aead (encrypted_size s.size_bytes default_segment_size + 2 + more) n reader
      ≡ (pt, none)
  pub digest : env.sha256 pt ≡ s.checksum
