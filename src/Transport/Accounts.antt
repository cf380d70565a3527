-- ===== src/Transport/Accounts.antt =====
-- internal/transport/grpc/auth_handler.go and share_handler.go: a handler takes the fields of its request.
use strato.Prelude.{ℕ, List, [], ◌++◌, Option, map}
use strato.Entity.Account.{Text, Role, User, Quota}
use strato.Entity.Access.{Share}
use strato.Domain.Action.{pure, ◌>>=◌}
use strato.Outside.{Env}
use strato.Middleware.{Context}
use strato.Postgres.Listings.{share_key}
use strato.Usecase.Auth.Token.{AuthEnv}
use strato.Usecase.Auth.Session
use strato.Usecase.Auth.Session.{TokenPair}
use strato.Usecase.Auth.Account
use strato.Usecase.Share
use strato.Transport.Rpc.{Rpc, respond, with_identity, with_optional_id, with_page, ident_and_id}
use strato.Transport.Messages.{
  Wire, ShareMessage, WirePermission, PageRequest, share_to_proto, permission_from_proto,
  page_token,
}

pub record Profile : Type 0 where
  pub user_id : Text
  pub email : Text
  pub display_name : Text
  pub role : Role
  pub quota_bytes : ℕ
  pub used_bytes : ℕ
  pub created_at : ℕ

pub record SharePage : Type 0 where
  pub shares : List ShareMessage
  pub next_page_token : Text

module _ (env : Env) (auth : AuthEnv) (wire : Wire) where
  -- `Register`: the id of the user.
  unfoldable pub register : Text → Text → Text → Rpc Text
  register email password display_name = respond (
      Account.register env auth email password display_name >>= λ user.
      pure (wire.uuid_text user.id))

  -- `Login`: the response has the fields of the pair.
  unfoldable pub login : Context → Text → Text → Rpc TokenPair
  login ctx email password = respond (Account.login env auth ctx.meta email password)

  -- `RefreshToken`.
  unfoldable pub refresh_token : Context → Text → Rpc TokenPair
  refresh_token ctx token = respond (Session.refresh env auth ctx.meta token)

  -- `Logout`.
  unfoldable pub logout : Text → Rpc (Unit {0})
  logout token = respond (Session.logout env token)

  profile_response : User × Quota → Profile
  profile_response (user, quota) = record {
    user_id = wire.uuid_text user.id;
    email = user.email;
    display_name = user.display_name;
    role = user.role;
    quota_bytes = quota.quota_bytes;
    used_bytes = quota.used_bytes;
    created_at = user.created_at;
  }

  -- `GetProfile`.
  unfoldable pub get_profile : Context → Rpc Profile
  unfolding profile_response
  get_profile ctx =
      with_identity ctx.identity
        λ ident. respond (Account.profile ident >>= λ r. pure (profile_response r))

  -- `CreateShare`.
  unfoldable pub create_share : Context → Text → Text → WirePermission → Option ℕ → Rpc ShareMessage
  create_share ctx file_id grantee_email permission expires_at =
      ident_and_id wire ctx file_id λ ident id. respond (
        Share.create_share env auth ident id grantee_email (permission_from_proto permission)
          expires_at
        >>= λ s. pure (share_to_proto wire s grantee_email []))

  -- `CreatePublicLink`; `base` is the public base URL with "/public/" behind it.
  unfoldable pub create_public_link :
      Text → Context → Text → WirePermission → Option ℕ → Text → Rpc ShareMessage
  create_public_link base ctx file_id permission expires_at password =
      ident_and_id wire ctx file_id λ ident id. respond (
        Share.create_public_link env auth ident id (permission_from_proto permission) expires_at
          password
        >>= λ r. pure (share_to_proto wire r.0 [] (base ++ r.1)))

  share_page : ℕ → List Share → SharePage
  share_page limit shares = record {
    shares = map (λ s. share_to_proto wire s [] []) shares;
    next_page_token = page_token wire share_key limit shares;
  }

  -- `ListShares`.
  unfoldable pub list_shares : Context → Text → Option PageRequest → Rpc SharePage
  unfolding share_page
  list_shares ctx file_id page = with_identity ctx.identity λ ident.
      with_optional_id wire file_id λ id. with_page wire page λ cur limit.
        respond (Share.list ident id cur limit >>= λ shares. pure (share_page limit shares))

  -- `RevokeShare`.
  unfoldable pub revoke_share : Context → Text → Rpc (Unit {0})
  revoke_share ctx share_id =
      ident_and_id wire ctx share_id (λ ident id. respond (Share.revoke ident id))
