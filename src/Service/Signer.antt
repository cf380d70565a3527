-- ===== src/Service/Signer.antt =====
-- internal/service/signer.go. Times are nanoseconds since the epoch.
pub mod Binding
use strato.Prelude.{
  ℕ, ◌+◌, ◌/◌, ◌^◌, Bool, true, false, ◌&&◌, ◌||◌, List, [], ◌∷◌, ◌++◌, Option, none, some, ltb,
  ◌==◌, if◌then◌else◌, bytes_equal, and_then,
}
use strato.Crypto.Cipher.{Bytes}
use strato.Encoding.Base64.{url_encoding, encode}
use strato.Encoding.Decimal.{format, parse_int64}
use strato.Encoding.Split.{join}
use strato.Entity.Account.{Text}
use strato.Domain.Error.{Result, ok, err, unauthenticated}

-- `URLSigner`: HMAC-SHA256 under its secret, and the text of a UUID with its parser.
pub record UrlSigner : Type 0 where
  pub hmac : Bytes → Bytes
  pub uuid_text : ℕ → Text
  pub parse_uuid : Text → Option ℕ

-- The query parameters uid, exp and sig; one that is missing is empty.
pub record Query : Type 0 where
  pub uid : Text
  pub exp : Text
  pub sig : Text

-- Time.Unix.
abbrev pub unix : ℕ → ℕ
unix t = t / 1_000_000_000

module _ (s : UrlSigner) where
  -- The text that is signed.
  abbrev pub signed_text : ℕ → ℕ → ℕ → Text
  signed_text file_id user_id exp =
      join b'|' (s.uuid_text file_id) (s.uuid_text user_id ∷ format exp ∷ [])

  -- `signature`.
  unfoldable pub signature : ℕ → ℕ → ℕ → Text
  signature file_id user_id exp = encode url_encoding (s.hmac (signed_text file_id user_id exp))

  -- `Sign`.
  unfoldable pub sign : ℕ → ℕ → ℕ → ℕ → Query
  unfolding signature
  sign now file_id user_id ttl =
      let exp = unix (now + ttl) in
      record { uid = s.uuid_text user_id; exp = format exp; sig = signature file_id user_id exp }

  -- `Verify`, once the user and the expiry are parsed.
  unfoldable pub verify_parsed : ℕ → ℕ → Text → Option ℕ → Option ℕ → Result ℕ
  unfolding signature
  verify_parsed now file_id sig (some user_id) (some exp) =
      if ltb exp (unix now)
      then err unauthenticated
      else if bytes_equal (signature file_id user_id exp) sig
      then ok user_id
      else err unauthenticated
  verify_parsed now file_id sig _ _ = err unauthenticated

  -- `Verify`. Where the expiry is negative it is over, so that `Verify` fails as for a text that is no
  -- number.
  unfoldable pub verify : ℕ → ℕ → Query → Result ℕ
  unfolding verify_parsed
  verify now file_id q = verify_parsed now file_id q.sig (s.parse_uuid q.uid) (parse_int64 q.exp)
