-- ===== src/Usecase/Upload/Assemble.antt =====
-- `assembleBlob` and `copyChunk` of internal/usecase/upload_uc.go.
use mathlib.Core.List.{flatten}
use strato.Prelude.{
  ℕ, suc, Bool, true, ◌&&◌, not, List, [], ◌∷◌, Option, none, some, length, ◌==◌, if◌then◌else◌,
}
use strato.Crypto.Cipher.{Bytes, Aead, key_size}
use strato.Crypto.KeyWrap.{Wrapped, wrap_key, nonce_size}
use strato.Crypto.Stream.Frame.{default_segment_size, nonce_prefix_len}
use strato.Crypto.Stream.Writer.{Writer, Fault, new_stream_writer, write_all}
use strato.Crypto.Stream.Written.{empty_dst}
use strato.Crypto.Stream.Size.{encrypted_size}
use strato.Entity.Storage.{Blob, blob_key}
use strato.Entity.Upload.{UploadSession, Chunk}
use strato.Domain.Error.{
  Result, ok, err, infra, upload_incomplete, checksum_mismatch, is_already_exists,
}
use strato.Domain.Action.{Action, pure, fail, lift, attempt, ignore, fail_if, ◌>>=◌, ◌>>◌}
use strato.Outside.{Env, new_id, random_bytes, put, get, delete}
use strato.Postgres.BlobRepo
use strato.Postgres.UploadRepo

-- The chunks have the indices `i`, `i + 1` and so on.
unfoldable pub in_order : ℕ → List Chunk → Bool
in_order i [] = true
in_order i (c ∷ cs) = c.index == i && in_order (suc i) cs

-- The plaintext of the producer, one part for each chunk.
unfoldable pub copy_chunks : List Chunk → Action (List Bytes)
copy_chunks [] = pure []
copy_chunks (c ∷ cs) = get c.storage_key >>= λ part. copy_chunks cs >>= λ parts. pure (part ∷ parts)

unfoldable pub wrapped : Wrapped → Action Bytes
wrapped (Wrapped.ok b) = pure b
wrapped (Wrapped.err _) = fail infra

closed : Writer × Option Fault → Result Bytes
closed (w, none) = ok w.dst.written
closed (w, some _) = err infra

written : Aead → List Bytes → Option Writer × Option Fault → Result Bytes
unfolding closed
written a parts (none, _) = err infra
written a parts (some w, _) = closed (write_all a w parts)

-- What the producer writes into the pipe: the stream of the parts. The pipe itself never fails.
unfoldable pub encrypt_parts : Aead → Bytes → Bytes → List Bytes → Result Bytes
unfolding written closed
encrypt_parts a dek prefix parts =
    written a parts (new_stream_writer empty_dst dek (some prefix) default_segment_size)

-- The object of a session under a new key: its wrapped key, the stream and the plaintext's digest.
-- The producer runs beside `Put`: an error of either fails the call, so that the model lets the
-- producer end first.
unfoldable pub seal_chunks : Env → List Chunk → Action (Bytes × Bytes × ℕ)
unfolding wrapped
seal_chunks env chunks = random_bytes env key_size >>= λ dek.
    random_bytes env nonce_size >>= λ wrap_nonce.
    wrapped (wrap_key env.aead env.kek dek (some wrap_nonce)) >>= λ wrapped_dek.
    random_bytes env nonce_prefix_len >>= λ prefix. copy_chunks chunks >>= λ parts.
    lift (encrypt_parts env.aead dek prefix parts) >>= λ stream.
    pure (wrapped_dek, stream, env.sha256 (flatten parts))

-- `blobs.Create`; a row that exists by now is adopted.
unfoldable pub record_blob : Blob → Action Blob
record_blob b = attempt (BlobRepo.create b) >>= λ r. elim r [
  | ok _ ↦ pure b
  | err e ↦ if is_already_exists e then BlobRepo.get_by_checksum b.checksum else fail e
]

-- `assembleBlob`, from `Put` on: an object with another digest than the declared one is deleted.
unfoldable pub store_sealed : Env → UploadSession → Bytes × Bytes × ℕ → Action Blob
store_sealed env s (wrapped_dek, stream, digest) =
    let key = blob_key s.checksum in
    put key stream (encrypted_size s.size_bytes default_segment_size)
    >> (if digest == s.checksum
        then (new_id env >>= λ id. record_blob (record {
          id = id;
          checksum = s.checksum;
          size_bytes = s.size_bytes;
          storage_key = key;
          wrapped_dek = wrapped_dek;
          ref_count = 0;
          created_at = 0;
        }))
        else ignore (delete key) >> fail checksum_mismatch)

-- `assembleBlob`.
unfoldable pub assemble_blob : Env → UploadSession → Action Blob
unfolding store_sealed
assemble_blob env s = UploadRepo.list_chunks s.id >>= λ chunks.
    fail_if (not (length chunks == s.total_chunks)) upload_incomplete
    >> (fail_if (not (in_order 0 chunks)) upload_incomplete
        >> (seal_chunks env chunks >>= store_sealed env s))
