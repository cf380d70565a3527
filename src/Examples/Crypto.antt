-- ===== src/Examples/Crypto.antt =====
-- pkg/crypto, internal/entity and the names of internal/usecase/access.go on concrete inputs.
use mathlib.Core.List.{flatten}
use strato.Prelude.{
  List, inl, ℕ, zero, suc, ◌+◌, ◌≡◌, refl, [], ◌∷◌, ◌++◌, some, none, arith, length, take,
}
use strato.Crypto.Cipher.{Bytes}
use strato.Crypto.Toy.{toy}
use strato.Crypto.KeyWrap.{ok, wrap_key, unwrap_key, unwrap_key-wrap_key}
use strato.Crypto.Stream.Frame.{stream_magic, put_u32, seg_header}
use strato.Crypto.Stream.Emitted.{Stream, frame, nothing, emit}
use strato.Crypto.Stream.Writer.{Writer, new_stream_writer, write_all}
use strato.Crypto.Stream.Written.{empty_dst, Finished, write_all-Stream}
use strato.Crypto.Stream.Reader.{Reader, new_stream_reader, read_all}
use strato.Crypto.Stream.Decoded.{read_all-write_all}
use strato.Crypto.Stream.Truncated.{Refused, Stream-truncated}
use strato.Crypto.Stream.Size.{encrypted_size, Stream-encrypted_size}
use strato.Entity.Upload.{UploadSession, pending, chunk_count}
use strato.Entity.Chunks.{expected_total, expected_total-size}
use strato.Domain.Error.{Result}
use strato.Usecase.Names.{validate_name}
use strato.Encoding.Space.{trim_space}

abbrev repeat : ℕ → ℕ → Bytes
repeat zero b = []
repeat (suc n) b = b ∷ repeat n b

abbrev pub key : Bytes
key = repeat 32 7

abbrev prefix : Bytes
prefix = repeat 8 9

-- Two writes that are three segments of at most four bytes.
abbrev parts : List Bytes
parts = (1 ∷ 2 ∷ 3 ∷ 4 ∷ 5 ∷ []) ∷ (6 ∷ 7 ∷ 8 ∷ 9 ∷ []) ∷ []

abbrev body : Bytes
body =
    ([] ++ frame toy key prefix 0 0 (1 ∷ 2 ∷ 3 ∷ 4 ∷ []))
    ++ frame toy key prefix 1 0 (5 ∷ 6 ∷ 7 ∷ 8 ∷ [])

-- The stream of the two writes.
abbrev pub stream : Bytes
stream = stream_magic ++ (prefix ++ (body ++ frame toy key prefix 2 1 (9 ∷ [])))

stream_whole : Stream toy key prefix 4 (flatten parts) stream
unfolding flatten
stream_whole = record {
  segments = 2;
  counter = 2;
  before = 1 ∷ 2 ∷ 3 ∷ 4 ∷ 5 ∷ 6 ∷ 7 ∷ 8 ∷ [];
  body = body;
  last = 9 ∷ [];
  emitted = emit (5 ∷ 6 ∷ 7 ∷ 8 ∷ []) (emit (1 ∷ 2 ∷ 3 ∷ 4 ∷ []) nothing refl) refl;
  content = refl;
  fits = omega arith;
  last_kept = inl (omega arith);
  layout = refl;
}

read_all-write_all_example :
    (w : Writer) × (r : Reader) × (new_stream_writer empty_dst key (some prefix) 4 ≡ (some w, none))
    × ((write_all toy w parts).1 ≡ none)
    × (new_stream_reader ((write_all toy w parts).0.dst.written ++ 0 ∷ []) key 4 ≡ (some r, none))
    × (read_all toy (length ((write_all toy w parts).0.dst.written ++ 0 ∷ []) + 2 + 0) 3 r
        ≡ (flatten parts, none))
read_all-write_all_example =
    read_all-write_all toy key prefix 4 3 0 parts (0 ∷ []) refl refl (omega arith) (omega arith)

Stream-truncated_example : Refused toy key 4 3 0 (take 60 stream)
unfolding frame seg_header put_u32
Stream-truncated_example =
    Stream-truncated toy key prefix 4 3 60 0 (flatten parts) stream refl refl (omega arith)
      (omega arith) stream_whole (omega arith)

Stream-encrypted_size_example : length stream ≡ encrypted_size 9 4
unfolding flatten frame seg_header put_u32
Stream-encrypted_size_example =
    Stream-encrypted_size toy key prefix 4 (flatten parts) stream refl (omega arith) stream_whole

write_all-Stream_example :
    (w : Writer) × (new_stream_writer empty_dst key (some prefix) 4 ≡ (some w, none))
    × Finished toy key prefix 4 (flatten parts) (write_all toy w parts)
write_all-Stream_example = write_all-Stream toy key prefix 4 parts refl

unwrap_key-wrap_key_example :
    (w : Bytes) × (wrap_key toy key (1 ∷ 2 ∷ 3 ∷ []) (some (repeat 12 5)) ≡ ok w)
    × (length w ≡ 31)
    × (unwrap_key toy key w ≡ ok (1 ∷ 2 ∷ 3 ∷ []))
unwrap_key-wrap_key_example = unwrap_key-wrap_key toy key (1 ∷ 2 ∷ 3 ∷ []) (repeat 12 5) refl refl

-- Ten bytes in chunks of four.
abbrev session : UploadSession
session = record {
  id = 1;
  user_id = 2;
  folder_id = none;
  name = b'a' ∷ [];
  mime_type = [];
  size_bytes = 10;
  checksum = 3;
  chunk_size = 4;
  total_chunks = 3;
  status = pending;
  created_at = 0;
  expires_at = 9;
}

expected_total-size_example : expected_total session 3 ≡ 10
unfolding chunk_count
expected_total-size_example = expected_total-size session (omega arith) (omega arith) refl

-- " a" is the name "a".
trimmed : validate_name (32 ∷ b'a' ∷ []) ≡ Result.ok (b'a' ∷ [])
unfolding validate_name trim_space
trimmed = refl
