-- ===== src/Usecase/Auth/Token.antt =====
-- The tokens of pkg/crypto/random.go, and `IssueAccessToken` and `ParseAccessToken` of internal/auth/jwt.go.
use strato.Prelude.{ℕ, ◌+◌, Option, none, some}
use strato.Encoding.Base64.{url_encoding, encode}
use strato.Crypto.Password.{IdKey}
use strato.Entity.Account.{Text, Role, User}
use strato.Domain.Error.{Result, ok, err, unauthenticated}
use strato.Entity.Access.{Identity}
use strato.Domain.Action.{Action, pure, lift, gets, ◌>>=◌}
use strato.Outside.{Env, new_id, random_bytes}

-- `RandomToken`.
unfoldable pub random_token : Env → ℕ → Action Text
random_token env n = random_bytes env n >>= λ b. pure (encode url_encoding b)

-- `HashToken`.
unfoldable pub hash_token : Env → Text → ℕ
hash_token env token = env.sha256 token

-- `claims` of an access token; `subject` is the user.
pub record Claims : Type 0 where
  pub issuer : Text
  pub subject : ℕ
  pub issued_at : ℕ
  pub expires_at : ℕ
  pub jti : ℕ
  pub email : Text
  pub role : Role

-- `JWTManager` with the policy of `AuthConfig`: `sign` is jwt.NewWithClaims and SignedString under its
-- secret, `id_key` is argon2.IDKey, and `unicode_lower` is strings.ToLower of a text that is not ASCII.
pub record AuthEnv : Type 0 where
  pub sign : Claims → Result Text
  pub issuer : Text
  pub ttl : ℕ
  pub refresh_token_ttl : ℕ
  pub default_quota_bytes : ℕ
  pub id_key : IdKey
  pub unicode_lower : Text → Text

pub record AccessToken : Type 0 where
  pub token : Text
  pub expires_at : ℕ

-- `IssueAccessToken`.
unfoldable pub issue_access_token : Env → AuthEnv → User → Action AccessToken
issue_access_token env auth user = gets (λ w. w.clock) >>= λ now. new_id env >>= λ id.
    lift (
      auth.sign (record {
        issuer = auth.issuer;
        subject = user.id;
        issued_at = now;
        expires_at = now + auth.ttl;
        jti = id;
        email = user.email;
        role = user.role;
      }))
    >>= λ token. pure (record { token = token; expires_at = now + auth.ttl })

-- The claims of an access token as jwt.ParseWithClaims reads them.
pub record TokenClaims : Type 0 where
  pub subject : Text
  pub email : Text
  pub role : Role

-- `ParseAccessToken` at a time; `parse` is jwt.ParseWithClaims, with the key and the options of the
-- manager.
unfoldable pub parse_access_token :
    (ℕ → Text → Option TokenClaims) → (Text → Option ℕ) → ℕ → Text → Result Identity
parse_access_token parse parse_uuid now token = elim (parse now token) [
  | none ↦ err unauthenticated
  | some c ↦ elim (parse_uuid c.subject) [
    | none ↦ err unauthenticated
    | some id ↦ ok (record { user_id = id; email = c.email; role = c.role })
  ]
]
