-- ===== src/Transport/Http.antt =====
-- The HTTP handlers of internal/transport/http: upload_handler.go, download_handler.go and
-- public_handler.go.
use strato.Prelude.{ℕ, ◌||◌, [], ◌∷◌, Option, none, some, ltb, length, if◌then◌else◌, ◌==◌}
use strato.Encoding.Decimal.{parse_int64}
use strato.Crypto.Cipher.{Bytes}
use strato.Crypto.Stream.Reader.{Reader}
use strato.Entity.Account.{Text}
use strato.Entity.Access.{Identity}
use strato.Entity.Storage.{File}
use strato.Entity.Upload.{Chunk}
use strato.Domain.Error.{Result, ok, err}
use strato.Domain.World.{World}
use strato.Domain.Action.{Action, pure, ◌>>=◌}
use strato.Outside.{Env}
use strato.Middleware.{Context}
use strato.Middleware.Http.{Response, sent, failed}
use strato.Service.Signer.{UrlSigner, Query}
use strato.Usecase.Auth.Token.{AuthEnv}
use strato.Usecase.Upload.Init.{upload_chunk}
use strato.Usecase.File.Content.{open_download, open_file_content}
use strato.Usecase.File.Signed.{verify_signed_download}
use strato.Usecase.Share.{resolve_public_link}
use strato.Transport.Status.{http_code}
use strato.Transport.Messages.{Wire}

abbrev pub Endpoint {ℓ} : Type ℓ → Type ℓ
Endpoint A = World → Response A × World

-- The body of the answer to a chunk.
pub record ChunkReceipt : Type 0 where
  pub session_id : Text
  pub chunk_index : ℕ
  pub size_bytes : ℕ
  pub checksum_sha256 : Text

-- The headers of a download, and the reader whose bytes follow them.
pub record Download : Type 0 where
  pub content_type : Text
  pub content_length : ℕ
  pub filename : Text
  pub body : Reader

module _ {ℓ} {A : Type ℓ} where
  written : Result A × World → Response A × World
  written (ok a, w) = (sent a, w)
  written (err e, w) = (failed (http_code e), w)

  -- The answer of a use case, or `writeError`.
  unfoldable pub respond : Action A → Endpoint A
  unfolding written
  respond m w = written (m w)

  -- http.Error.
  unfoldable pub reject : ℕ → Endpoint A
  reject code w = (failed code, w)

  required : Option ℕ → (ℕ → Endpoint A) → Endpoint A
  required none k = reject 400
  required (some n) k = k n

-- `serveStream`; `media_type` gives a text that mime.ParseMediaType accepts, and "application/octet-stream"
-- for any other.
unfoldable pub serve_stream : (Text → Text) → Reader × File → Download
serve_stream media_type (rc, f) = record {
  content_type = media_type f.mime_type;
  content_length = f.size_bytes;
  filename = f.name;
  body = rc;
}

module _ (env : Env) (wire : Wire) where
  receipt : ℕ → Chunk → ChunkReceipt
  receipt session_id chunk = record {
    session_id = wire.uuid_text session_id;
    chunk_index = chunk.index;
    size_bytes = chunk.size_bytes;
    checksum_sha256 = wire.hex chunk.checksum;
  }

  put_chunk : Option Identity → Text → Text → Bytes → Endpoint ChunkReceipt
  unfolding required receipt
  put_chunk none session_id index body = reject 401
  put_chunk (some ident) session_id index body = required (wire.parse_uuid session_id) λ id.
      required (parse_int64 index)
        λ i. respond (upload_chunk env ident id i body >>= λ chunk. pure (receipt id chunk))

  -- `UploadHandler.ServeHTTP`. `UploadChunk` reads at most a chunk of the body, so that the cap of a chunk
  -- and a byte is never met.
  unfoldable pub serve_chunk : Context → Text → Text → Bytes → Endpoint ChunkReceipt
  unfolding put_chunk
  serve_chunk ctx session_id index body = put_chunk ctx.identity session_id index body

  opened : UrlSigner → Option Identity → ℕ → Query → Action (Reader × File)
  opened signer (some ident) file_id q = open_download env ident file_id
  opened signer none file_id q = verify_signed_download env signer file_id q

  -- `DownloadHandler.ServeHTTP`.
  unfoldable pub serve_download :
      UrlSigner → (Text → Text) → Context → Text → Query → Endpoint Download
  unfolding opened required
  serve_download signer media_type ctx file_id q =
      required (wire.parse_uuid file_id)
        λ id. respond (opened signer ctx.identity id q >>= λ r. pure (serve_stream media_type r))

  link_password : Text → Text → Text
  link_password [] query = query
  link_password (c ∷ header) query = c ∷ header

  -- `PublicHandler.ServeHTTP`, with the password of the header and the one of the query.
  unfoldable pub serve_public : AuthEnv → (Text → Text) → Text → Text → Text → Endpoint Download
  unfolding link_password
  serve_public auth media_type token header query =
      if length token == 0 || ltb 128 (length token)
      then reject 400
      else respond (
          resolve_public_link env auth token (link_password header query) >>= λ r.
          open_file_content env r.0 >>= λ rc. pure (serve_stream media_type (rc, r.0)))
