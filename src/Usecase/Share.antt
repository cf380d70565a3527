-- ===== src/Usecase/Share.antt =====
-- internal/usecase/share_uc.go.
pub mod Access
pub mod Links
pub mod Revoked
pub mod Row
pub mod Granting
use strato.Prelude.{
  List, ℕ, Bool, true, false, not, ◌&&◌, ◌||◌, [], ◌∷◌, Option, none, some, ltb, ◌==◌,
  if◌then◌else◌,
}
use strato.Encoding.Space.{trim_space}
use strato.Crypto.Password.{default_argon2_params, hash_password, verify_password}
use strato.Entity.Account.{Text, is_admin_role}
use strato.Entity.Access.{Permission, viewer, editor, owner, valid, Share, share_active, Identity}
use strato.Entity.Storage.{File}
use strato.Domain.Error.{Error, Result, ok, err, not_found, invalid_argument, password_required}
use strato.Domain.World.{share_created, share_revoked, share_accessed}
use strato.Domain.Action.{Action, pure, fail, gets, attempt, fail_if, ◌>>=◌, ◌>>◌}
use strato.Outside.{Env, new_id, random_bytes}
use strato.Pagination.{Cursor}
use strato.Postgres.Listings
use strato.Postgres.FileRepo
use strato.Postgres.ShareRepo
use strato.Postgres.UserRepo
use strato.Usecase.Access.{authorize_file}
use strato.Usecase.Audit.{audit}
use strato.Usecase.Auth.Token.{AuthEnv, random_token, hash_token}
use strato.Usecase.Auth.Account.{to_lower, password_ok}

abbrev pub past : Option ℕ → ℕ → Bool
past none now = false
past (some t) now = ltb t now

-- `validateExpiry`.
unfoldable pub validate_expiry : Option ℕ → Action (Unit {0})
validate_expiry expires_at =
    gets (λ w. w.clock) >>= λ now. fail_if (past expires_at now) invalid_argument

-- The file of a share that the caller makes.
unfoldable pub shared_file : Identity → ℕ → Action File
shared_file ident file_id =
    authorize_file ident file_id owner >>= λ f. fail_if f.is_deleted not_found >> pure f

-- What looks a row up, with any failure turned into `e`.
unfoldable pub or_error {ℓ} : {A : Type ℓ} → Error → Result A → Action A
or_error e (ok a) = pure a
or_error e (err _) = fail e

-- The share that `CreateShare` makes.
abbrev pub private_share : Identity → File → ℕ → Permission → Option ℕ → ℕ → Share
private_share ident f grantee_id perm expires_at id = record {
  id = id;
  file_id = f.id;
  owner_id = ident.user_id;
  grantee_id = some grantee_id;
  token_hash = none;
  permission = perm;
  password_hash = none;
  expires_at = expires_at;
  created_at = 0;
  revoked_at = none;
}

-- `CreateShare`.
unfoldable pub create_share :
    Env → AuthEnv → Identity → ℕ → Text → Permission → Option ℕ → Action Share
create_share env auth ident file_id email perm expires_at =
    fail_if (not (valid perm)) invalid_argument
    >> (validate_expiry expires_at
        >> (shared_file ident file_id >>= λ f.
            (attempt (UserRepo.get_by_email (to_lower auth (trim_space email)))
              >>= or_error not_found)
            >>= λ grantee.
                fail_if (grantee.id == f.owner_id) invalid_argument
                >> (new_id env >>= λ id.
                    let share = private_share ident f grantee.id perm expires_at id in
                    ShareRepo.create share
                    >> (audit (some ident.user_id) share_created id >> pure share))))

linkable : Permission → Bool
linkable viewer = true
linkable editor = true
linkable _ = false

-- The hash of a link's password; an empty password is none.
unfoldable pub link_password : Env → AuthEnv → Text → Action (Option Text)
unfolding password_ok
link_password env auth [] = pure none
link_password env auth (c ∷ password) =
    fail_if (not (password_ok (c ∷ password))) invalid_argument
    >> (random_bytes env default_argon2_params.salt_length >>= λ salt.
        pure (some (hash_password auth.id_key (c ∷ password) default_argon2_params salt)))

-- The share that `CreatePublicLink` makes.
abbrev pub link_share : Identity → File → ℕ → Permission → Option Text → Option ℕ → ℕ → Share
link_share ident f hash perm password_hash expires_at id = record {
  id = id;
  file_id = f.id;
  owner_id = ident.user_id;
  grantee_id = none;
  token_hash = some hash;
  permission = perm;
  password_hash = password_hash;
  expires_at = expires_at;
  created_at = 0;
  revoked_at = none;
}

-- `CreatePublicLink`: the share and the token of the link.
unfoldable pub create_public_link :
    Env → AuthEnv → Identity → ℕ → Permission → Option ℕ → Text → Action (Share × Text)
unfolding linkable
create_public_link env auth ident file_id perm expires_at password =
    fail_if (not (linkable perm)) invalid_argument
    >> (validate_expiry expires_at
        >> (shared_file ident file_id >>= λ f. random_token env 32 >>= λ token.
            link_password env auth password >>= λ password_hash. new_id env >>= λ id.
            let share =
              link_share ident f (hash_token env token) perm password_hash expires_at id in
            ShareRepo.create share
            >> (audit (some ident.user_id) share_created id >> pure (share, token))))

-- `List`.
unfoldable pub list : Identity → Option ℕ → Cursor → ℕ → Action (List Share)
list ident file_id cur limit = Listings.list_by_owner ident.user_id file_id cur limit

-- What `Revoke` makes of the answer of the repository: a share that is revoked already is no error.
unfoldable pub revoked : Identity → ℕ → Result (Unit {0}) → Action (Unit {0})
revoked ident id (ok _) = audit (some ident.user_id) share_revoked id
revoked ident id (err not_found) = pure tt
revoked ident id (err e) = fail e

-- `Revoke`.
unfoldable pub revoke : Identity → ℕ → Action (Unit {0})
revoke ident id = (attempt (ShareRepo.get_by_id id) >>= or_error not_found) >>= λ share.
    fail_if (not (share.owner_id == ident.user_id) && not (is_admin_role ident.role)) not_found
    >> (attempt (ShareRepo.revoke id) >>= revoked ident id)

-- The answer of `VerifyPassword`, an error included.
accepted : Option Bool → Bool
accepted (some b) = b
accepted none = false

-- Whether the password opens a link with that hash, or with none.
unfoldable pub opens : AuthEnv → Text → Option Text → Bool
unfolding accepted
opens auth password none = true
opens auth password (some hash) = accepted (verify_password auth.id_key password hash)

-- `ResolvePublicLink`.
unfoldable pub resolve_public_link : Env → AuthEnv → Text → Text → Action (File × Share)
resolve_public_link env auth token password =
    (attempt (ShareRepo.get_by_token_hash (hash_token env token)) >>= or_error not_found)
    >>= λ share. gets (λ w. w.clock) >>= λ now.
        fail_if (not (share_active share now)) not_found
        >> (fail_if (not (opens auth password share.password_hash)) password_required
            >> ((attempt (FileRepo.get_by_id share.file_id) >>= or_error not_found) >>= λ f.
                fail_if f.is_deleted not_found
                >> (audit none share_accessed share.id >> pure (f, share))))
